-- ===== src/Tasks/Manager/Tests.antt =====
-- A restart on a database with an orphan, and a cancelled task.
use dikw_core.Prelude.{ℕ, String, ◌≡◌, refl, [], ◌∷◌, map}
use dikw_core.Tasks.Model.{ok}
use dikw_core.Tasks.Store.{create, append_event, list_running}
use dikw_core.Tasks.Tests.{db_told}
use dikw_core.Tasks.Manager.{restart_cleanup}
use dikw_core.Tasks.Manager.Cleanup.{restart_cleanup-list_running}

abbrev at_noon : ℕ → String
at_noon n = "noon"

orphans : map (λ r. r.task_id) (list_running "i" db_told) ≡ "a" ∷ "b" ∷ []
unfolding list_running create append_event
orphans = refl

restart_cleanup-list_running_example :
    ((restart_cleanup "i" at_noon db_told).0 ≡ ok tt)
    × (list_running "i" (restart_cleanup "i" at_noon db_told).1 ≡ [])
restart_cleanup-list_running_example = restart_cleanup-list_running "i" at_noon db_told
