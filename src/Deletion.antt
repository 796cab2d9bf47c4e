-- ===== src/Deletion.antt =====
-- The delete verb of src/dikw_core/api_delete.py: `delete_page`, over the tables of Storage.antt and
-- the files of Trash/Disk.antt. The Unicode normalization of paths, their resolution under the base
-- and the frontmatter library are parameters; each await may raise or be cancelled, and what progress messages say is left
-- out.
pub mod Purging
pub mod Outcomes
pub mod Inbound
pub mod Tests
use dikw_core.Prelude.{
  ℕ, suc, String, Text, codes, same, Bool, true, false, not, ◌||◌, Option, none, some, List, [],
  ◌∷◌, ◌++◌, map, if◌then◌else◌, str_eq, ◌==◌, any, select, length, take, drop,
}
use dikw_core.Links.Parse.{lstrip}
use dikw_core.Storage.{
  Layer, source, knowledge, wisdom, DocumentRecord, LinkRecord, Db, get_document, delete_document,
  links_to, append_knowledge_log,
}
use dikw_core.Trash.{Post, System, move_to_trash}
use dikw_core.Trash.Disk.{
  FilePath, Files, Failure, not_found, os_error, other_error, Step, ok, raised,
}

-- `layer.value`
unfoldable pub layer_value : Layer → Text
layer_value source = codes "source"
layer_value knowledge = codes "knowledge"
layer_value wisdom = codes "wisdom"

unfoldable pub doc_id_for : (Text → Text) → Layer → Text → Text
unfolding layer_value
doc_id_for normalize_path layer path = layer_value layer ++ 58 ∷ normalize_path path

-- `not path or not path.strip() or "\x00" in path`
unfoldable pub malformed : Text → Bool
malformed path = (elim (lstrip path) [ [] ↦ true | c ∷ s ↦ false ]) || any (λ c. c == 0) path

-- The index of the last `/`
unfoldable pub rfind_slash : Text → Option ℕ
rfind_slash [] = none
rfind_slash (c ∷ s) = elim (rfind_slash s) [
  | some i ↦ some (suc i)
  | none ↦ if c == 47 then some 0 else none
]

unfoldable pub path_of : Text → FilePath
unfolding rfind_slash
path_of p = elim (rfind_slash p) [
  | none ↦ record { parent = []; name = p }
  | some i ↦ record { parent = take (suc i) p; name = drop (suc i) p }
]

pub record DeleteReport : Type 0 where
  pub path : Text
  pub layer : Layer
  pub trashed_to : Option FilePath
  pub inbound_broken : ℕ

pub data Reply : Type 0 where
  report : DeleteReport → Reply
  page_not_found : Text → Reply
  cancelled : Reply
  failed : Failure → Reply
  -- `asyncio.CancelledError` at an await
  interrupted : Reply

-- What ends the call at an await: an exception of what is awaited, or a cancellation, which finds the
-- work in its thread not begun or lets it run to its end.
pub data Stop : Type 0 where
  fails : Failure → Stop
  cut : Bool → Stop

-- What happens at each await of `delete_page`.
pub record Awaits : Type 0 where
  pub looks_up : Option Stop
  pub counts : Option Stop
  pub announces : Option Stop
  pub purges : Option Stop
  pub trashes : Option Bool
  pub logs : Option Stop
  pub tells : Option Stop

-- A call that is awaited: it takes the tables from `old` to `new`, or raises and rolls back.
unfoldable pub awaiting :
    Option Stop → Db → Db → Files → (Db → Reply × Db × Files) → Reply × Db × Files
awaiting none old new fs go_on = go_on new
awaiting (some (fails e)) old new fs go_on = (failed e, old, fs)
awaiting (some (cut false)) old new fs go_on = (interrupted, old, fs)
awaiting (some (cut true)) old new fs go_on = (interrupted, new, fs)

-- The number of different texts: `len(set(xs))`
unfoldable pub count_distinct : List Text → ℕ
count_distinct [] = 0
count_distinct (x ∷ xs) =
    if any (λ y. same y x) xs then count_distinct xs else suc (count_distinct xs)

-- The documents whose links to the page will dangle
unfoldable pub count_inbound : DocumentRecord → Db → ℕ
unfolding links_to count_distinct
count_inbound match db = count_distinct (
    map (λ l. l.src_doc_id)
      (select (λ l. not (same l.src_doc_id match.doc_id)) (links_to match.path db)))

-- `reason or "delete"`
unfoldable pub reason_or_default : Option String → String
reason_or_default none = "delete"
reason_or_default (some r) = if str_eq r "" then "delete" else r

module _ (normalize_path : Text → Text) where
  -- The first layer in which the path is registered, active or not
  unfoldable pub probe : List Layer → Text → Db → Option DocumentRecord
  unfolding get_document doc_id_for
  probe [] path db = none
  probe (l ∷ ls) path db = elim (get_document (doc_id_for normalize_path l path) db) [
    | some d ↦ some d
    | none ↦ probe ls path db
  ]

abbrev pub all_layers : List Layer
all_layers = source ∷ knowledge ∷ wisdom ∷ []

unfoldable pub files_after : Step FilePath → Files
files_after (ok dest fs) = fs
files_after (raised e fs) = fs

-- The log entry and the report at the end
unfoldable pub finish :
    Awaits → ℕ → DocumentRecord → Option FilePath → ℕ → Db → Files → Reply × Db × Files
unfolding append_knowledge_log awaiting
finish aw now match trashed_to inbound db fs =
    awaiting aw.logs db
      (append_knowledge_log (record { ts = now; action = codes "delete"; src = match.path }) db) fs
      (λ db1. awaiting aw.tells db1 db1 fs (λ db2. (
        report record {
          path = match.path;
          layer = match.layer;
          trashed_to = trashed_to;
          inbound_broken = inbound;
        },
        db2,
        fs,
      )))

-- What follows the move: `FileNotFoundError` counts as a file that is gone.
unfoldable pub after_trash :
    Awaits → ℕ → DocumentRecord → ℕ → Db → Step FilePath → Reply × Db × Files
unfolding finish
after_trash aw now match inbound db (ok dest fs) = finish aw now match (some dest) inbound db fs
after_trash aw now match inbound db (raised not_found fs) = finish aw now match none inbound db fs
after_trash aw now match inbound db (raised os_error fs) = (failed os_error, db, fs)
after_trash aw now match inbound db (raised other_error fs) = (failed other_error, db, fs)

-- `await asyncio.to_thread(_trash)`: a cancellation leaves the thread to run, if it has begun.
unfoldable pub await_trash :
    Awaits → ℕ → DocumentRecord → ℕ → Db → Files → Step FilePath → Reply × Db × Files
unfolding after_trash files_after
await_trash aw now match inbound db fs moved = elim aw.trashes [
  | none ↦ after_trash aw now match inbound db moved
  | some false ↦ (interrupted, db, fs)
  | some true ↦ (interrupted, db, files_after moved)
]

-- `locate` is `_assert_within`: the resolved path below the base, or `none` for a `ValueError`.
module _ {Value : Type 0} (loads : String → Option (Post Value)) (dumps : Post Value → String)
    (dict : List (String × String) → Value) (normalize_path : Text → Text)
    (locate : Text → Option FilePath) where
  -- From the purge on: the rows go first, then the file.
  unfoldable pub purge_and_trash :
      System
      → Awaits
      → ℕ
      → Option String
      → DocumentRecord
      → FilePath
      → ℕ
      → Db
      → Files
      → Reply × Db × Files
  unfolding delete_document await_trash finish path_of reason_or_default awaiting
  purge_and_trash sys aw now reason match abs_path inbound db fs =
      awaiting aw.purges db (delete_document match.doc_id db) fs (λ db1. elim (fs abs_path) [
        | none ↦ finish aw now match none inbound db1 fs
        | some _ ↦ await_trash aw now match inbound db1 fs (
            move_to_trash loads dumps dict sys abs_path (path_of match.path)
              (reason_or_default reason) "" fs)
      ])

  -- From the count of the links on; `cancel` is the state of the reporter's token.
  unfoldable pub count_and_purge :
      System
      → Awaits
      → ℕ
      → Bool
      → Option String
      → DocumentRecord
      → FilePath
      → Db
      → Files
      → Reply × Db × Files
  unfolding count_inbound purge_and_trash awaiting
  count_and_purge sys aw now cancel reason match abs_path db fs =
      awaiting aw.counts db db fs (λ db1.
        if cancel
        then (cancelled, db1, fs)
        else awaiting aw.announces db1 db1 fs (λ db2.
          purge_and_trash sys aw now reason match abs_path (count_inbound match db) db2 fs))

  unfoldable pub delete_page :
      System → Awaits → ℕ → Bool → Text → Option String → Db → Files → Reply × Db × Files
  unfolding malformed probe count_and_purge awaiting
  delete_page sys aw now cancel path reason db fs =
      if malformed path
      then (page_not_found path, db, fs)
      else awaiting aw.looks_up db db fs (λ db1. elim (probe normalize_path all_layers path db1) [
        | none ↦ (page_not_found path, db1, fs)
        | some match ↦ elim (locate match.path) [
          | none ↦ (page_not_found path, db1, fs)
          | some abs_path ↦ count_and_purge sys aw now cancel reason match abs_path db1 fs
        ]
      ])
