-- ===== src/PageIndex/Integrity.antt =====
-- Storing a page leaves no dangling row in these tables, also where it is broken off.
use dikw_core.Storage.{Db}
use dikw_core.Embedding.{Consumed, drained, stopped}
use dikw_core.PageIndex.{Persisted, persisted, raised}

-- The database that a call leaves
abbrev pub left : Persisted → Db
left (persisted r db) = db
left (raised db) = db

abbrev consumed : Consumed → Db
consumed (drained r db) = db
consumed (stopped db) = db
