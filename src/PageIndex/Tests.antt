-- ===== src/PageIndex/Tests.antt =====
-- A page of one paragraph, stored beside the documents of Storage/Tests.antt.
use dikw_core.Prelude.{
  ℕ, ◌+◌, Text, codes, same, ◌≡◌, refl, true, none, some, [], ◌∷◌, length, Option,
}
use dikw_core.Storage.{knowledge}
use dikw_core.Storage.Tests.{two_documents}
use dikw_core.Lint.{seq, str, nil, cons, end, field}
use dikw_core.Embedding.Tests.{flaky}
use dikw_core.PageIndex.{
  Parsed, Embedder, Outside, KnowledgePersistResult, Persisted, persisted, document_row,
  persist_layered_page,
}
use dikw_core.PageIndex.Integrity.{left}
use dikw_core.PageIndex.Accounts.{persist_layered_page-counts}

abbrev same_text : Text → Text
same_text t = t

abbrev page : Parsed
page = record {
  title = some (codes "T");
  hash = codes "h";
  mtime = 1;
  status = none;
  body = codes "text";
  frontmatter = field (codes "sources") (seq (cons (str (codes "b")) nil)) end;
}

abbrev outside : Outside
outside = record {
  normalize = same_text;
  nfkc = same_text;
  casefold = same_text;
  inside = λ p. true;
  parse_any = λ p. some page;
  count_tokens = length;
  max_tokens = 900;
  max_overlap = 0;
  overlap_in_range = true;
  wikis = λ t. [];
  mds = λ t. [];
  urls = λ t. [];
}

abbrev embedder : Option (Embedder ℕ)
embedder = some (record { world = flaky; dim = λ v. 3; version_id = 7; retries = 1 })

abbrev run : Persisted
run =
    persist_layered_page outside embedder (codes "knowledge/t.md") knowledge none none two_documents

abbrev result : KnowledgePersistResult
result = record {
  chunk_ids = 3 ∷ [];
  chunks_embedded = 1;
  chunks_pending_embedding = 0;
  unresolved_wikilinks = 0;
  resolved_title = some (codes "T");
}

run_persisted : run ≡ persisted result (left run)
unfolding persist_layered_page same document_row
run_persisted = refl

persist_layered_page-counts_example :
    result.chunks_embedded + result.chunks_pending_embedding ≡ length result.chunk_ids
persist_layered_page-counts_example =
    persist_layered_page-counts outside embedder (codes "knowledge/t.md") knowledge none none
      two_documents (left run) result run_persisted
