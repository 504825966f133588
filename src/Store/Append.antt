-- ===== src/Store/Append.antt =====
-- `_append_locked` and `_validate_append_anchors_locked`: one log entry inside the caller's
-- transaction. The database that results is returned; on an error the caller rolls it back.
use curator_skill_registry.Base.{
  ℕ, ◌+◌, ◌-◌, Bool, true, false, List, [], ◌∷◌, ◌++◌, none, some, Text, codes, text_eq, Bytes, hex,
  from_hex, ltb, leb, ◌==◌, ◌&&◌, not, if◌then◌else◌, Outcome, ok, err, ◌>>=◌, ◌>>◌, ensure, length,
  all, max,
}
use curator_skill_registry.Json.{Fields, obj, get, nonempty_str}
use curator_skill_registry.Merkle.{
  Frontier, FrontierError, inconsistent, tail_incomplete, depth_exceeded, index_error, last,
  last_pair, frontier_root, frontier_append,
}
use curator_skill_registry.Signing.{Env, canonical_bytes}
use curator_skill_registry.Store.{
  LogRow, LogEntry, BoundaryRow, Database, Failure, StoreError, value_error, latched,
  boundary_missing, frontier_not_head, frontier_inconsistent, frontier_tail_incomplete,
  frontier_depth, head_mismatch, frontier_disagrees, not_contiguous, cache_inconsistent, genesis,
  head_row, row_at, boundary_at,
}
use curator_skill_registry.Store.Boundary.{head_seq}
use curator_skill_registry.Protocol.{valid_hash_version}
use curator_skill_registry.Json.Canonical.{CanonicalError}
use curator_skill_registry.Store.Frontier.{load_frontier, save_frontier}

-- The five columns of a record, and the text under which each is read.
pub record Columns : Type 0 where
  pub name : Text
  pub source_identity : Text
  pub commit_hash : Text
  pub content_sha256 : Text
  pub status : Text

-- `isinstance(record.get(key), str)` and not empty
unfoldable pub require_str : Text → Fields → Outcome StoreError Text
require_str key body = elim (nonempty_str (get key body)) [ none ↦ err value_error | some t ↦ ok t ]

-- the `for key in (...)` loop of `_append_locked`
unfoldable pub require_columns : Fields → Outcome StoreError Columns
require_columns body = do
  name ← require_str (codes "name") body
  source_identity ← require_str (codes "source_identity") body
  commit ← require_str (codes "commit") body
  content_sha256 ← require_str (codes "content_sha256") body
  status ← require_str (codes "status") body
  ok (record {
    name = name;
    source_identity = source_identity;
    commit_hash = commit;
    content_sha256 = content_sha256;
    status = status;
  })

-- What `_append_locked` makes of an error of the frontier code: `StoreIntegrityError` latches.
unfoldable pub latching : {A : Type 0} → Outcome Failure A → Outcome StoreError A
latching (ok a) = ok a
latching (err f) = err (latched f)

unfoldable pub frontier_failure : FrontierError → StoreError
frontier_failure inconsistent = latched frontier_inconsistent
frontier_failure tail_incomplete = latched frontier_tail_incomplete
frontier_failure depth_exceeded = latched frontier_depth
frontier_failure index_error = StoreError.index_error

unfoldable pub of_frontier : {A : Type 0} → Outcome FrontierError A → Outcome StoreError A
of_frontier (ok a) = ok a
of_frontier (err e) = err (frontier_failure e)

-- `bytes.fromhex`, whose ValueError nothing here catches
unfoldable pub unhex : Text → Outcome StoreError Bytes
unhex t = elim (from_hex t) [ none ↦ err value_error | some b ↦ ok b ]

-- a `CanonicalError`, which is a ValueError
unfoldable pub of_canonical : {A : Type 0} → Outcome CanonicalError A → Outcome StoreError A
of_canonical (ok a) = ok a
of_canonical (err e) = err value_error

-- INSERT INTO boundaries violates the primary key
unfoldable pub has_boundary : ℕ → List BoundaryRow → Bool
has_boundary n bs = elim (boundary_at n bs) [ none ↦ false | some _ ↦ true ]

-- `t.encode("ascii")`
unfoldable pub ascii : Text → Outcome StoreError Bytes
ascii t = if all (λ c. ltb c 128) t then ok t else err value_error

unfoldable pub nodes_eq : List Bytes → List Bytes → Bool
nodes_eq [] [] = true
nodes_eq [] (y ∷ ys) = false
nodes_eq (x ∷ xs) [] = false
nodes_eq (x ∷ xs) (y ∷ ys) = text_eq x y && nodes_eq xs ys

-- `frontier[0].length if frontier else 0`
unfoldable pub bottom_length : Frontier → ℕ
bottom_length [] = 0
bottom_length (l ∷ f) = l.len

unfoldable pub bottom_tail : Frontier → List Bytes
bottom_tail [] = []
bottom_tail (l ∷ f) = l.tail

-- `str(row["entry_hash"]) if row else _GENESIS`
unfoldable pub head_hash : {Doc : Type 0} → List (LogRow Doc) → Text
head_hash log = elim (head_row log) [ none ↦ genesis | some r ↦ r.entry_hash ]

-- the bottom tail against the last committed leaf, or the last two
unfoldable pub validate_bottom :
    {Doc : Type 0} → List (LogRow Doc) → ℕ → Text → List Bytes → Outcome StoreError (Unit {0})
validate_bottom log previous_seq prev_hash tail =
    if previous_seq == 1
    then (if length tail == 1
        then (do h ← unhex prev_hash; ensure (nodes_eq tail (h ∷ [])) (latched frontier_disagrees))
        else err (latched frontier_disagrees))
    else elim (row_at (previous_seq - 1) log) [
      | none ↦ err (latched not_contiguous)
      | some second ↦ do
        g ← unhex second.entry_hash
        h ← unhex prev_hash
        ensure (nodes_eq tail (g ∷ h ∷ [])) (latched frontier_disagrees)
    ]

module _ {Doc : Type 0} (env : Env Doc) where
  -- the loop over `zip(frontier, frontier[1:])`
  unfoldable pub validate_links : Frontier → Outcome StoreError (Unit {0})
  validate_links [] = ok tt
  validate_links (lower ∷ []) = ok tt
  validate_links (lower ∷ upper ∷ rest) = do
    ensure (not (leb 2 lower.len && ltb (length lower.tail) 2)) (latched frontier_tail_incomplete)
    want ← of_frontier (last_pair env.sha256 lower.len lower.tail)
    top ← of_frontier (last upper.tail)
    ensure (text_eq top want) (latched frontier_disagrees)
    validate_links (upper ∷ rest)

  -- what the anchors check once the boundary row is read
  unfoldable pub validate_against :
      List (LogRow Doc) → ℕ → Text → Frontier → BoundaryRow → Outcome StoreError (Unit {0})
  validate_against log previous_seq prev_hash frontier boundary = do
    ensure (text_eq boundary.head prev_hash) (latched head_mismatch)
    validate_bottom log previous_seq prev_hash (bottom_tail frontier)
    validate_links frontier
    root ← of_frontier (frontier_root frontier)
    ensure (text_eq (hex root) boundary.merkle_root) (latched frontier_disagrees)

  -- The checks behind the first: an empty log has no frontier, any other its boundary row.
  unfoldable pub validate_committed :
      Database Doc → ℕ → Text → Frontier → Outcome StoreError (Unit {0})
  validate_committed db previous_seq prev_hash frontier =
      if previous_seq == 0
      then ensure (length frontier == 0) (latched frontier_not_head)
      else elim (boundary_at previous_seq db.boundaries) [
        | none ↦ err (latched boundary_missing)
        | some boundary ↦ validate_against db.log previous_seq prev_hash frontier boundary
      ]

  -- `_validate_append_anchors_locked`
  unfoldable pub validate_append_anchors :
      Database Doc → ℕ → Text → Frontier → Outcome StoreError (Unit {0})
  validate_append_anchors db previous_seq prev_hash frontier = do
    ensure (bottom_length frontier == previous_seq) (latched frontier_not_head)
    validate_committed db previous_seq prev_hash frontier

  -- hashlib.sha256(prev_hash.encode("ascii") + record_bytes).hexdigest()
  unfoldable pub chain_hash : Bytes → Bytes → Text
  chain_hash prev record_bytes = hex (env.sha256 (prev ++ record_bytes))

  abbrev pub new_row : ℕ → Text → Text → Columns → Fields → Text → LogRow Doc
  new_row seq prev_hash entry_hash columns body created_at = record {
    seq = seq;
    entry_hash = entry_hash;
    prev_hash = prev_hash;
    name = columns.name;
    source_identity = columns.source_identity;
    commit_hash = columns.commit_hash;
    content_sha256 = columns.content_sha256;
    status = columns.status;
    record_json = env.dumps (obj body);
    created_at = created_at;
  }

  -- the INSERTs of the new entry, its boundary and the grown frontier
  unfoldable pub write_entry :
      Database Doc → LogRow Doc → Fields → Frontier → Bytes → LogEntry × Database Doc
  write_entry db row body grown root = (
    record {
      seq = row.seq;
      entry_hash = row.entry_hash;
      prev_hash = row.prev_hash;
      record_fields = body;
    },
    record db {
      log = db.log ++ row ∷ [];
      log_sequence = row.seq;
      merkle_frontier = save_frontier env grown;
      boundaries =
          db.boundaries
          ++ record {
            log_size = row.seq;
            head = row.entry_hash;
            merkle_root = hex root;
            created_at = row.created_at;
          }
            ∷ [];
    },
  )

  -- The rest of the handler, from the INSERT into the log on. `lastrowid` is one above every row
  -- id that the table ever had.
  unfoldable pub insert_entry :
      Database Doc
      → ℕ
      → Text
      → Text
      → Frontier
      → Columns
      → Fields
      → Text
      → Outcome StoreError (LogEntry × Database Doc)
  insert_entry db previous_seq prev_hash entry_hash frontier columns body created_at = do
    let seq = max db.log_sequence (head_seq db.log) + 1
    ensure (seq == previous_seq + 1) (latched not_contiguous)
    leaf ← unhex entry_hash
    (grown, root) ← of_frontier (frontier_append env.sha256 frontier leaf)
    ensure (not (has_boundary seq db.boundaries)) (latched cache_inconsistent)
    ok (write_entry db (new_row seq prev_hash entry_hash columns body created_at) body grown root)

  -- `_append_locked(record, created_at=...)`
  unfoldable pub append_locked :
      Database Doc → Fields → Text → Outcome StoreError (LogEntry × Database Doc)
  append_locked db body created_at = do
    columns ← require_columns body
    ensure (valid_hash_version body) value_error
    record_bytes ← of_canonical (canonical_bytes env body)
    frontier ← latching (load_frontier env db.merkle_frontier)
    validate_append_anchors db (head_seq db.log) (head_hash db.log) frontier
    prev ← ascii (head_hash db.log)
    insert_entry db (head_seq db.log) (head_hash db.log) (chain_hash prev record_bytes) frontier
        columns body created_at
