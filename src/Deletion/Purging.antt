-- ===== src/Deletion/Purging.antt =====
-- The purge of `delete_page` in api_delete.py, and what holds of a call that is awaited.
use dikw_core.Prelude.{
  true, Text, same, ◌≡◌, refl, false, not, Option, none, some, List, [], ◌∷◌, select, arith,
}
use dikw_core.Storage.{
  DocumentRecord, Db, find_document, get_document, delete_document, delete_edges, delete_chunks,
  delete_vectors, delete_fts, links_from, append_knowledge_log, LinkRecord, LogEntry,
}
use dikw_core.Trash.Disk.{Failure, Files}
use dikw_core.Deletion.{Reply, failed, interrupted, Stop, fails, cut, awaiting}

find_document-delete :
    (id : Text) (ds : List DocumentRecord)
    → find_document id (select (λ d. not (same d.doc_id id)) ds) ≡ none
unfolding find_document
find_document-delete id [] = refl
find_document-delete id (d ∷ ds) = ground (arith, find_document-delete id ds)

links_from-delete :
    (id : Text) (ls : List LinkRecord)
    → select (λ l. same l.src_doc_id id) (select (λ l. not (same l.src_doc_id id)) ls) ≡ []
links_from-delete id [] = refl
links_from-delete id (l ∷ ls) = ground (arith, links_from-delete id ls)

-- The row of the document and its outgoing links are gone.
abbrev pub Purged : Text → Db → Type 0
Purged id db = (get_document id db ≡ none) × (links_from id db ≡ [])

pub delete_document-Purged : (id : Text) (db : Db) → Purged id (delete_document id db)
unfolding get_document links_from delete_document delete_edges delete_chunks delete_vectors
    delete_fts
delete_document-Purged id db = (find_document-delete id db.documents, links_from-delete id db.links)

pub log-Purged :
    (id : Text) (e : LogEntry) (db : Db) → Purged id db → Purged id (append_knowledge_log e db)
unfolding get_document links_from append_knowledge_log
log-Purged id e db h = h

-- What holds of a call that is awaited holds however it ends.
pub awaiting-cases :
    (P : Reply × Db × Files → Type 0) (o : Option Stop) (old new : Db) (fs : Files)
    (go_on : Db → Reply × Db × Files)
    → ((e : Failure) → P (failed e, old, fs))
    → P (interrupted, old, fs)
    → P (interrupted, new, fs)
    → P (go_on new)
    → P (awaiting o old new fs go_on)
unfolding awaiting
awaiting-cases P none old new fs go_on f i j k = k
awaiting-cases P (some (fails e)) old new fs go_on f i j k = f e
awaiting-cases P (some (cut false)) old new fs go_on f i j k = i
awaiting-cases P (some (cut true)) old new fs go_on f i j k = j
