-- ===== src/Tasks/Routes/Listing.antt =====
-- A page of `list_tasks` in routes_tasks.py.
use mathlib.Core.Option.{map as map_option}
use dikw_core.Prelude.{String, ◌&&◌, Option, List, map, select, str_eq}
use dikw_core.Prelude.Sort.{sort}
use dikw_core.Tasks.Model.{TaskStatus, TaskRow, Db}
use dikw_core.Tasks.Store.{summary, listed_before, after_cursor, status_matches, op_matches}

module _ (inst : String) (status : Option TaskStatus) (op : Option String) (db : Db) where
  -- All the rows that a listing from the cursor on has.
  unfoldable listing : Option String → Option String → List TaskRow
  listing after_at after_id = map summary (
      sort listed_before (
        map (λ t. t.row)
          (select
            (λ t.
              str_eq t.instance_id inst
              && (status_matches status t.row
                  && (op_matches op t.row && after_cursor after_at after_id t.row)))
            db.tasks)))
