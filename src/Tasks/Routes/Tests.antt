-- ===== src/Tasks/Routes/Tests.antt =====
-- The finished task of Tasks/Tests.antt, read over the endpoints of routes_tasks.py.
use Prim.Native.Nat.{pred}
use dikw_core.Prelude.{none, ◌≡◌, refl, true, map, [], ◌∷◌, drop, arith, some}
use dikw_core.Tasks.Model.{failed, is_terminal, Db}
use dikw_core.Tasks.Store.{get, create, update_status, append_event, events_of}
use dikw_core.Tasks.Store.Reach.{updated, here, next, Writes-IsWellFormed}
use dikw_core.Tasks.Tests.{db_done, history, done_row, finishing}
use dikw_core.Tasks.Routes.{TaskListPage, list_tasks_page, found, result_body, get_task_result}
use dikw_core.Tasks.Routes.Paging.{follow, follow-tape}
use dikw_core.Tasks.Routes.Results.{get_task_result-Writes}

done_row-found : get "i" "a" db_done ≡ some done_row
unfolding get create append_event update_status
done_row-found = refl

follow-tape_example :
    follow "i" "a" 1 0 0 db_done 3 0
    ≡ map (λ e. e.event) (drop (pred 0) (events_of "a" db_done.events))
unfolding create append_event update_status
follow-tape_example =
    follow-tape "i" "a" 1 0 0 db_done done_row done_row-found
      ((Writes-IsWellFormed history).numbered "a") (omega arith) 3 0 (omega arith)

pages_of_one : map (λ e. e.seq) (follow "i" "a" 1 0 0 db_done 3 0) ≡ 1 ∷ 2 ∷ []
unfolding follow create append_event update_status
pages_of_one = refl

abbrev later_db : Db
later_db = (update_status "j" "a" failed finishing db_done).1

result_served : get_task_result "i" "a" db_done ≡ found (result_body done_row)
unfolding get_task_result get create append_event update_status is_terminal
result_served = refl

get_task_result-Writes_example :
    (get_task_result "i" "a" later_db ≡ found (result_body done_row))
    × (is_terminal (result_body done_row).status ≡ true)
get_task_result-Writes_example =
    get_task_result-Writes "i" "a" (result_body done_row)
      (next here (updated "j" "a" failed finishing)) result_served

abbrev first_page : TaskListPage
first_page = list_tasks_page "i" none none 1 (some ("2025", "")) db_done

first_of_two : map (λ r. r.task_id) first_page.tasks ≡ "a" ∷ []
unfolding list_tasks_page create append_event update_status
first_of_two = refl
