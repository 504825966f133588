-- ===== src/Store/Boundary.antt =====
-- `_snapshot_boundary_locked`, `_page_boundary_locked` and `boundary_available`: reading the
-- memoized boundary of a log prefix.
use curator_skill_registry.Base.{
  ℕ, Bool, false, List, Option, none, some, Text, text_eq, ltb, ◌==◌, ◌&&◌, if◌then◌else◌, Outcome,
  ok, err, ◌>>=◌, ◌>>◌, ensure,
}
use curator_skill_registry.Store.{
  LogRow, BoundaryRow, SnapshotBoundary, Database, StoreError, value_error, integrity,
  boundary_mismatch, creation_metadata, cache_missing, head_mismatch, not_contiguous, genesis,
  head_row, row_at, boundary_at,
}

-- `int(head_row["seq"]) if head_row else 0`
unfoldable pub head_seq : {Doc : Type 0} → List (LogRow Doc) → ℕ
head_seq log = elim (head_row log) [ none ↦ 0 | some r ↦ r.seq ]

-- `max_seq` with `None` for the live boundary
unfoldable pub selected_seq : ℕ → Option ℕ → ℕ
selected_seq current none = current
selected_seq current (some n) = n

-- the anchor: the log row at the boundary still carries its head and time
unfoldable pub anchor_matches : {Doc : Type 0} → Option (LogRow Doc) → BoundaryRow → Bool
anchor_matches none cached = false
anchor_matches (some anchor) cached =
    text_eq anchor.entry_hash cached.head && text_eq anchor.created_at cached.created_at

unfoldable pub empty_boundary : Option Text → Outcome StoreError SnapshotBoundary
empty_boundary none = err (integrity creation_metadata)
empty_boundary (some created) = ok (record {
  version = 0;
  log_size = 0;
  head = genesis;
  merkle_root = genesis;
  created_at = created;
})

unfoldable pub cached_boundary :
    {Doc : Type 0}
    → List (LogRow Doc)
    → ℕ
    → Option BoundaryRow
    → Outcome StoreError SnapshotBoundary
cached_boundary log n none = err (integrity cache_missing)
cached_boundary log n (some cached) = do
  ensure (anchor_matches (row_at n log) cached) (integrity head_mismatch)
  elim (row_at 1 log) [
    | none ↦ err (integrity not_contiguous)
    | some _ ↦ ok (record {
      version = n;
      log_size = n;
      head = cached.head;
      merkle_root = cached.merkle_root;
      created_at = cached.created_at;
    })
  ]

-- `_snapshot_boundary_locked(max_seq)`
unfoldable pub snapshot_boundary :
    {Doc : Type 0} → Database Doc → Option ℕ → Outcome StoreError SnapshotBoundary
snapshot_boundary db max_seq =
    let n = selected_seq (head_seq db.log) max_seq in
    if ltb (head_seq db.log) n
    then err value_error
    else (if n == 0
        then empty_boundary db.created_at
        else cached_boundary db.log n (boundary_at n db.boundaries))

-- `actual == expected` on two boundaries
unfoldable pub boundary_eq : SnapshotBoundary → SnapshotBoundary → Bool
boundary_eq a b =
    a.version == b.version
    && a.log_size == b.log_size
    && text_eq a.head b.head
    && text_eq a.merkle_root b.merkle_root
    && text_eq a.created_at b.created_at

-- What `except (ValueError, StoreIntegrityError)` turns into `CursorBoundaryMismatch`.
unfoldable pub or_mismatch :
    Outcome StoreError SnapshotBoundary → Outcome StoreError SnapshotBoundary
or_mismatch (ok b) = ok b
or_mismatch (err e) = err boundary_mismatch

-- `_page_boundary_locked(boundary, max_seq)`
unfoldable pub page_boundary :
    {Doc : Type 0}
    → Database Doc
    → Option SnapshotBoundary
    → Option ℕ
    → Outcome StoreError SnapshotBoundary
page_boundary db (some carried) (some n) = err value_error
page_boundary db none max_seq = snapshot_boundary db max_seq
page_boundary db (some carried) none = do
  actual ← or_mismatch (snapshot_boundary db (some carried.log_size))
  ensure (boundary_eq actual carried) boundary_mismatch
  ok actual

-- `boundary_available(expected)`, and `checkpoint_matches(checkpoint)`
unfoldable pub boundary_available : {Doc : Type 0} → Database Doc → SnapshotBoundary → Bool
boundary_available db expected = elim (snapshot_boundary db (some expected.log_size)) [
  | ok actual ↦ boundary_eq actual expected
  | err e ↦ false
]
