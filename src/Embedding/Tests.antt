-- ===== src/Embedding/Tests.antt =====
-- Three chunks, two of them equal, with a provider that fails once.
use dikw_core.Prelude.{
  ℕ, ◌+◌, Text, codes, same, same→eq, ◌≡◌, refl, ap, ◌∙◌, Bool-cases, inl, inr, true, false, none,
  some, List, [], ◌∷◌, map, length, arith, ◌==◌, if◌then◌else◌,
}
use dikw_core.Links.Index.{lookup}
use dikw_core.Storage.{Db}
use dikw_core.Storage.Tests.{two_documents}
use dikw_core.Embedding.{
  ChunkToEmbed, World, vectors, transient, done, embed_one_batch, Consumed, drained, stopped,
  EmbedConsumeResult, embed_and_store,
}
use dikw_core.Embedding.Plain.{embed_one_batch-plain}
use dikw_core.Embedding.Totals.{embed_and_store-counts}

-- The vector of a text is its length; the hash is the text.
abbrev pub vec : Text → ℕ
vec t = length t

abbrev pub flaky : World ℕ
flaky = record {
  content_hash = λ t. t;
  embed = λ n ts. if n == 0 then transient (codes "busy") else vectors (map vec ts);
  get_cached_embeddings = λ n hs. some ((codes "ab", 2) ∷ []);
  cancelled = λ n. false;
}

-- The attempts behind the first
abbrev settled : World ℕ
settled = record flaky { embed = λ n ts. vectors (map vec ts) }

abbrev three : List ChunkToEmbed
three =
    record { chunk_id = 1; text = codes "abc" }
    ∷ record { chunk_id = 2; text = codes "ab" }
    ∷ record { chunk_id = 2; text = codes "abc" }
    ∷ []

cached_right : (t : Text) (v : ℕ) → lookup t ((codes "ab", 2) ∷ []) ≡ some v → v ≡ vec t
cached_right t v e = elim (Bool-cases (same t (codes "ab"))) [
  | inl k ↦
      let f : some 2 ≡ some v = rw k at e in
      let size = ap length (same→eq t (codes "ab") k) in ground (arith, f, size)
  | inr k ↦ let f : none ≡ some v = rw k at e in cc
]

embed_one_batch-plain_example :
    (fresh : List (Text × ℕ)) × (embed_one_batch settled true 1 three
      ≡ done (map (λ (c : ChunkToEmbed). (c.chunk_id, vec c.text)) three, fresh))
embed_one_batch-plain_example =
    embed_one_batch-plain settled vec (λ s t e. ap vec (same→eq s t e)) 1 true three (λ ts. refl)
      (λ hs d e t v q.
        let same_dict : (codes "ab", 2) ∷ [] ≡ d = cc in
        cached_right t v (ap (lookup t) same_dict ∙ q))

-- One retry, and two batches
abbrev run : Consumed
run = embed_and_store flaky (λ v. 3) 7 true 1 (λ n. false) 2 three two_documents

abbrev totals : EmbedConsumeResult
totals = record { embedded = 3; batches_skipped = 0; chunks_skipped = 0; errors = [] }

abbrev stored : Consumed → Db
stored (drained r db) = db
stored (stopped db) = db

run_drained : run ≡ drained totals (stored run)
unfolding embed_and_store same
run_drained = refl

embed_and_store-counts_example : totals.embedded + totals.chunks_skipped ≡ length three
embed_and_store-counts_example =
    embed_and_store-counts flaky (λ v. 3) 7 true 1 (λ n. false) 2 three two_documents (stored run)
      totals run_drained
