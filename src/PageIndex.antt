-- ===== src/PageIndex.antt =====
-- `_persist_layered_page` of src/dikw_core/domains/knowledge/page_index.py: a page on disk is parsed,
-- cut into chunks, embedded, and its links and sources are stored. Each call of the storage is a
-- transaction of Storage.antt, and nobody else writes in between.
pub mod Integrity
pub mod Accounts
pub mod Tests
use dikw_core.Prelude.{
  ℕ, ◌+◌, Text, codes, Bool, true, false, not, ◌||◌, Option, none, some, List, [], ◌∷◌, ◌++◌, map,
  length, select, if◌then◌else◌,
}
use dikw_core.Links.Normalize.{is_empty}
use dikw_core.Links.Index.{Dict, build_title_indexes}
use dikw_core.Links.Resolve.{resolve_links}
use dikw_core.Links.Parse.{Match, parse_links}
use dikw_core.Chunking.{MarkdownChunk}
use dikw_core.Chunking.Spans.{Chunked, chunked, value_error, stuck, chunk_markdown}
use dikw_core.Storage.{
  Layer, source, knowledge, wisdom, same_layer, WisdomStatus, DocumentRecord, NewChunk, Db,
  upsert_document, replace_chunks, replace_links_from, list_documents,
}
use dikw_core.Storage.Changes.{replace_provenance_from}
use dikw_core.Lint.{Entries}
use dikw_core.Lint.Frontmatter.{frontmatter_str_list}
use dikw_core.Embedding.{
  ChunkToEmbed, World, EmbedConsumeResult, Consumed, drained, stopped, zip, embed_and_store,
}
use dikw_core.Deletion.{doc_id_for}

-- What `parse_any` returns.
pub record Parsed : Type 0 where
  pub title : Option Text
  pub hash : Text
  pub mtime : ℕ
  pub status : Option WisdomStatus
  pub body : Text
  pub frontmatter : Entries

-- An embedder with the version of its vectors and the retries
pub record Embedder (V : Type 0) : Type 0 where
  pub world : World V
  pub dim : V → ℕ
  pub version_id : ℕ
  pub retries : ℕ

-- `inside` tells whether a path resolves to one under the base; `parse_any` is none where it raises;
-- `chunk` is `chunk_markdown` with the token counter of the call.
pub record Outside : Type 0 where
  pub normalize : Text → Text
  pub nfkc : Text → Text
  pub casefold : Text → Text
  pub inside : Text → Bool
  pub parse_any : Text → Option Parsed
  pub count_tokens : Text → ℕ
  pub max_tokens : ℕ
  pub max_overlap : ℕ
  pub overlap_in_range : Bool
  pub wikis : Text → List Match
  pub mds : Text → List Match
  pub urls : Text → List Match

pub record KnowledgePersistResult : Type 0 where
  pub chunk_ids : List ℕ
  pub chunks_embedded : ℕ
  pub chunks_pending_embedding : ℕ
  pub unresolved_wikilinks : ℕ
  pub resolved_title : Option Text

-- How the call ends; an exception leaves the transactions before it.
pub data Persisted : Type 0 where
  persisted : KnowledgePersistResult → Db → Persisted
  raised : Db → Persisted

abbrev pub new_chunks : List MarkdownChunk → List NewChunk
new_chunks cs = map (λ (c : MarkdownChunk). record { seq = c.seq; text = c.text }) cs

-- The pairs of ids and texts
abbrev pub to_embed : List ℕ → List NewChunk → List ChunkToEmbed
to_embed ids cs =
    map (λ (p : ℕ × NewChunk). record { chunk_id = p.0; text = p.1.text }) (zip ids cs)

-- The documents of a layer that have a title
unfoldable pub titled_pages : List DocumentRecord → List (Text × Text)
titled_pages [] = []
titled_pages (d ∷ ds) = elim d.title [
  | none ↦ titled_pages ds
  | some t ↦ if is_empty t then titled_pages ds else (t, d.path) ∷ titled_pages ds
]

module _ {V : Type 0} (embedder : Option (Embedder V)) where
  -- The embedding of the chunks, if there is an embedder and a chunk: what is embedded, what is
  -- left, and the database; a call that raises is `stopped`.
  unfoldable pub embed_records : List ℕ → List NewChunk → Db → Consumed
  unfolding embed_and_store
  embed_records ids [] db =
      drained (record { embedded = 0; batches_skipped = 0; chunks_skipped = 0; errors = [] }) db
  embed_records ids (c ∷ cs) db = elim embedder [
    | none ↦
        drained
          (record {
            embedded = 0;
            batches_skipped = 0;
            chunks_skipped = length (c ∷ cs);
            errors = [];
          })
          db
    | some e ↦
        embed_and_store (record e.world { cancelled = λ n. false }) e.dim e.version_id true
          e.retries (λ n. false) 64 (to_embed ids (c ∷ cs)) db
  ]

module _ (o : Outside) where
  -- The title indexes of the call, or those of the stored pages
  unfoldable pub title_indexes :
      Option (Dict Text × Dict (List Text)) → Db → Dict Text × Dict (List Text)
  unfolding list_documents titled_pages build_title_indexes
  title_indexes (some given) db = given
  title_indexes none db = build_title_indexes o.nfkc o.casefold (
      titled_pages (list_documents (some knowledge) (some true) none db)
      ++ titled_pages (list_documents (some wisdom) (some true) none db))

  -- Links and provenance, behind the chunks
  unfoldable pub persist_edges :
      Text
      → Parsed
      → Option Text
      → Option (Dict Text × Dict (List Text))
      → List ℕ
      → ℕ
      → ℕ
      → Db
      → Persisted
  unfolding title_indexes resolve_links parse_links replace_links_from replace_provenance_from
      frontmatter_str_list
  persist_edges doc_id parsed title given ids embedded pending db =
      let (title_to_path, fuzzy_index) = title_indexes given db in
      let links =
        parse_links (o.wikis parsed.body) (o.mds parsed.body) (o.urls parsed.body) parsed.body in
      let (resolved, unresolved) =
        resolve_links o.nfkc o.casefold title_to_path fuzzy_index doc_id links in
      let db1 = replace_links_from doc_id resolved db in
      let sources = frontmatter_str_list parsed.frontmatter (codes "sources") in
      persisted
        (record {
          chunk_ids = ids;
          chunks_embedded = embedded;
          chunks_pending_embedding = pending;
          unresolved_wikilinks = length unresolved;
          resolved_title = title;
        })
        (replace_provenance_from o.normalize doc_id sources db1)

  -- The row of the document; a title that is given goes before that of the page.
  unfoldable pub document_row : Text → Layer → Option Text → Parsed → DocumentRecord
  unfolding same_layer doc_id_for
  document_row path layer title parsed = record {
    doc_id = doc_id_for o.normalize layer path;
    path = path;
    path_key = o.normalize path;
    title = elim title [ none ↦ parsed.title | some t ↦ some t ];
    hash = parsed.hash;
    mtime = parsed.mtime;
    layer = layer;
    active = true;
    status = if same_layer layer wisdom then parsed.status else none;
  }

  module _ {V : Type 0} (embedder : Option (Embedder V)) where
    unfoldable pub persist_chunks :
        Text
        → Parsed
        → Option Text
        → Option (Dict Text × Dict (List Text))
        → List NewChunk
        → Db
        → Persisted
    unfolding replace_chunks embed_records persist_edges
    persist_chunks doc_id parsed title given records db = elim (replace_chunks doc_id records db) [
      | none ↦ raised db
      | some (ids, db1) ↦ elim (embed_records embedder ids records db1) [
        | stopped db2 ↦ raised db2
        | drained r db2 ↦
            persist_edges doc_id parsed title given ids r.embedded r.chunks_skipped db2
      ]
    ]

    unfoldable pub persist_layered_page :
        Text → Layer → Option Text → Option (Dict Text × Dict (List Text)) → Db → Persisted
    unfolding same_layer doc_id_for upsert_document chunk_markdown persist_chunks
    persist_layered_page path layer title given db =
        let doc_id = doc_id_for o.normalize layer path in
        if same_layer layer source || not (o.inside path)
        then raised db
        else elim (o.parse_any path) [
          | none ↦ raised db
          | some parsed ↦
              let row = document_row path layer title parsed in
              elim (upsert_document row db) [
                | none ↦ raised db
                | some db1 ↦
                    elim (chunk_markdown o.count_tokens parsed.body o.max_tokens o.max_overlap
                      o.overlap_in_range []) [
                        | value_error ↦ raised db1
                        | stuck ↦ raised db1
                        | chunked cs ↦
                            persist_chunks doc_id parsed row.title given (new_chunks cs) db1
                      ]
              ]
        ]
