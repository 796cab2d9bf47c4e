-- ===== src/Deletion/Tests.antt =====
-- A page in the tables and on the disk, on which the theorems on api_delete.py are applied.
use dikw_core.Prelude.{List, length, any, ◌&&◌, Text, codes, same, ◌≡◌, Option, none, some, ◌∷◌}
use dikw_core.Storage.{knowledge, DocumentRecord, Db, delete_document}
use dikw_core.Storage.Tests.{document, two_documents}
use dikw_core.Trash.Tests.{page}
use dikw_core.Trash.Disk.{other_error, FilePath}
use dikw_core.Deletion.{Awaits, fails, count_inbound}
use dikw_core.Deletion.Inbound.{AllDistinct, count_inbound-delete_document}

abbrev dead : DocumentRecord
dead = record (document "knowledge/dead.md" knowledge) {
  doc_id = codes "knowledge:knowledge/dead.md";
}

abbrev db : Db
db = record two_documents { documents = dead ∷ two_documents.documents }

abbrev same_spelling : Text → Text
same_spelling p = p

abbrev at_page : Text → Option FilePath
at_page p = some page

-- The log cannot be written, after the file has moved.
abbrev no_log : Awaits
no_log = record {
  looks_up = none;
  counts = none;
  announces = none;
  purges = none;
  trashes = none;
  logs = some (fails other_error);
  tells = none;
}

count_inbound-delete_document_example :
    (ids : List Text) × (count_inbound (document "a" knowledge) two_documents ≡ length ids)
    × AllDistinct ids
    × ((x : Text)
        → any (same x) ids
          ≡ any
              (λ l. same l.dst_path (codes "a") && same x l.src_doc_id)
              (delete_document (codes "a") two_documents).links)
count_inbound-delete_document_example =
    count_inbound-delete_document (document "a" knowledge) two_documents
