-- ===== src/Store/Pages.antt =====
-- `log_entries` and `log_page` of the store: the log read at a boundary.
pub mod Stable
pub mod Total
use curator_skill_registry.Base.{
  ℕ, suc, ◌+◌, Bool, true, false, List, [], ◌∷◌, Option, none, some, ltb, leb, ◌&&◌, if◌then◌else◌,
  Outcome, ok, err, ◌>>=◌, length, take, drop,
}
use curator_skill_registry.Json.{Value, Fields, obj}
use curator_skill_registry.Signing.{Env}
use curator_skill_registry.Store.{
  LogRow, LogEntry, Database, SnapshotBoundary, StoreError, value_error, integrity, stored_record,
}
use curator_skill_registry.Store.Boundary.{snapshot_boundary, page_boundary}

module _ {Doc : Type 0} where
  -- SELECT ... FROM log WHERE seq > ? AND seq <= ? ORDER BY seq
  unfoldable pub select : ℕ → ℕ → List (LogRow Doc) → List (LogRow Doc)
  select since cap [] = []
  select since cap (r ∷ rs) =
      let rest = select since cap rs in if ltb since r.seq && leb r.seq cap then r ∷ rest else rest

module _ {Doc : Type 0} (env : Env Doc) where
  -- `_entry_from_row(row)`
  unfoldable pub entry_from_row : LogRow Doc → Outcome StoreError LogEntry
  entry_from_row r = elim (env.loads r.record_json) [
    | none ↦ err value_error
    | some (obj body) ↦ ok (record {
      seq = r.seq;
      entry_hash = r.entry_hash;
      prev_hash = r.prev_hash;
      record_fields = body;
    })
    | some _ ↦ err (integrity stored_record)
  ]

  unfoldable pub entries_from_rows : List (LogRow Doc) → Outcome StoreError (List LogEntry)
  entries_from_rows [] = ok []
  entries_from_rows (r ∷ rs) = do
    entry ← entry_from_row r
    entries ← entries_from_rows rs
    ok (entry ∷ entries)

  -- `log_entries(since=..., max_seq=...)`
  unfoldable pub log_entries : Database Doc → ℕ → Option ℕ → Outcome StoreError (List LogEntry)
  log_entries db since max_seq = do
    boundary ← snapshot_boundary db max_seq
    entries_from_rows (select since boundary.log_size db.log)

  -- the rows of a page, one more than its limit where there are more
  unfoldable pub page_rows : ℕ → ℕ → List (LogRow Doc) → Outcome StoreError (List LogEntry × Bool)
  page_rows limit offset rows =
      let found = take (limit + 1) (drop offset rows) in
      do entries ← entries_from_rows (take limit found); ok (entries, ltb limit (length found))

  -- `log_page(since=..., limit=..., offset=..., max_seq=..., boundary=...)`
  unfoldable pub log_page :
      Database Doc
      → ℕ
      → ℕ
      → ℕ
      → Option ℕ
      → Option SnapshotBoundary
      → Outcome StoreError (List LogEntry × Bool)
  log_page db since limit offset max_seq boundary = do
    cap ← page_boundary db boundary max_seq
    page_rows limit offset (select since cap.log_size db.log)
