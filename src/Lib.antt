-- ===== src/Lib.antt =====
-- dikw-core: a verification library for the server's task system and its client, the document tables,
-- the storing, the checking and the deletion of pages, the link graph, and the retrieval and chunking
-- core.
--
-- The server runs long operations as tasks. A task has a row and a tape of events in a database; a
-- coroutine moves the row through its states and appends to the tape, and clients read both over
-- HTTP. Pages link to each other by title; sources are cut into chunks, which are packed into groups
-- for synthesis and found again by a fusion of ranked lists.
--
-- Parts and files (paths from the repository's root):
--   Prelude             shared names, Boolean tests, lists, sorting, texts as code points
--   Dicts               dicts as lists of their items
--   Tasks/Model         src/dikw_core/server/tasks/store.py and events.py: rows, events, tables
--   Tasks/Store         src/dikw_core/server/tasks/store_sqlite.py: a call is one transaction, a
--                       function from the database to a reply and a database
--   Tasks/Run           the coroutine `_run` in src/dikw_core/server/tasks/manager.py: a step
--                       relation with a program counter for each await. Cancellations, also before
--                       the first step of the coroutine, failures of the store, late worker
--                       threads and the writes of other tasks are steps
--   Tasks/Manager       the rest of `TaskManager` in the same file
--   Tasks/Routes        src/dikw_core/server/routes_tasks.py: the read endpoints, with the
--                       databases that a handler sees at its store calls as arguments, and the text
--                       of a list cursor
--   Client              src/dikw_core/client/task_follow.py: a client that follows a task over the
--                       read endpoints; the transport is a function of the round
--   Storage             src/dikw_core/storage/sqlite.py: the tables of documents, chunks, edges and
--                       the log, and the writes on them, each one transaction; the embedding
--                       rows of chunks
--   Trash               src/dikw_core/domains/trash.py and src/dikw_core/domains/_atomic.py:
--                       files are a function from paths to texts, and every system call may fail
--   Deletion            src/dikw_core/api_delete.py: `delete_page` over Storage and Trash, where
--                       each await may raise or be cancelled
--   Links               src/dikw_core/domains/knowledge/links.py: normalisation, the two title
--                       indexes, `parse_links` and `resolve_links`
--   Lint                src/dikw_core/domains/knowledge/lint.py: `run_lint` over Storage and Links,
--                       and the readers of metadata in domains/knowledge/page.py
--   PageIndex           src/dikw_core/domains/knowledge/page_index.py: the storing of a page, over
--                       Chunking, Embedding, Links and Storage
--   Graph               src/dikw_core/api_graph.py: the indexes and the loop of `list_graph`
--   Search              src/dikw_core/domains/info/search.py: the fusions, the source-diversity
--                       penalty, the rerank window, the seeds of the graph leg, and
--                       `HybridSearcher.search` (Search/Searcher, Search/Query, Search/Hits)
--   Chunking            src/dikw_core/domains/info/chunk.py: the paragraph scanner
--                       (Chunking/Spans), the windows of paragraphs, `chunk_markdown`
--   Embedding           src/dikw_core/domains/info/embed.py: `embed_chunks` with its cache and its
--                       retries, and `consume_embedding_stream` over Storage
--   Grouping            src/dikw_core/domains/knowledge/grouping.py: sections and groups
-- `create`, `get`, `update_status`, `append_event` and so on are the methods of the same names.
--
-- Parameters stand for what is not in the repository or not to be computed here: the Unicode tables
-- (NFKC, NFC, casefold), the heading expressions of the grouping, the token counter, the arithmetic of
-- floats, JSON and the reading of base64, the regular expressions, the frontmatter library, the
-- resolution of a path under the base, the storage calls of the search, the embedders and their
-- cache, and the reranker. Times and new ids are
-- arguments.
--
-- Most loops are structural recursion. The paragraph scanner runs on the length of the text, of which
-- each round takes a character or more; `claim` of Trash.antt on the 1000 rounds of the source;
-- `strip_loop` of Links/Normalize.antt on the length of the token, of which each round takes one;
-- `follow` of Tasks/Routes/Paging.antt, a client of `get_events`, has the number of requests as fuel,
-- and how many are enough is part of its theorem, as is so for `follow_to_terminal` of
-- Client/Follow.antt.
--
-- Not modelled: the PostgreSQL store; of the storage adapters the search queries, the
-- registration of embedding versions and the assets; providers, the rest of the client, configuration and
-- telemetry (I/O and glue); the submit endpoints; the lint fixers, synthesis and evaluation.
pub mod Prelude
pub mod Tasks
pub mod Client
pub mod Links
pub mod Dicts
pub mod Lint
pub mod Search
pub mod Grouping
pub mod Chunking
pub mod Embedding
pub mod Trash
pub mod Storage
pub mod Deletion
pub mod PageIndex
pub mod Graph
