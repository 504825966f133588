-- ===== src/Store/Verify/Cache.antt =====
-- `_boundary_cache_errors` and `_verify_boundary_cache_on`: the tables boundaries and
-- merkle_frontier compared with what the walked log gives. A dict keyed by `log_size` is the list of
-- the rows of boundaries, whose primary key that is.
pub mod Clean
use curator_skill_registry.Base.{
  ℕ, ◌+◌, Bool, true, false, List, [], ◌∷◌, ◌++◌, Option, none, some, Text, text_eq, ltb, ◌==◌,
  ◌&&◌, not, if◌then◌else◌, Outcome, ok, err, ◌>>=◌, length, max,
}
use curator_skill_registry.Merkle.{Frontier}
use curator_skill_registry.Signing.{Env}
use curator_skill_registry.Store.{
  LogRow, BoundaryRow, FrontierRow, Database, Failure, StoreError, cache_missing,
  boundary_disagrees, boundary_invalid, boundary_uncommitted, frontier_not_head, frontier_disagrees,
  frontier_encoding, boundary_at,
}
use curator_skill_registry.Store.Append.{nodes_eq}
use curator_skill_registry.Store.Frontier.{load_frontier}
use curator_skill_registry.Store.Verify.{Expected, recompute_prefix}
use curator_skill_registry.Store.Verify.Walk.{report}

-- `cached == boundary` on the triples
unfoldable pub boundary_agrees : BoundaryRow → Expected → Bool
boundary_agrees cached boundary =
    text_eq cached.head boundary.head
    && text_eq cached.merkle_root boundary.merkle_root
    && text_eq cached.created_at boundary.created_at

-- `cached is None`, or a row to compare
unfoldable pub cached_error : Option BoundaryRow → Expected → List Failure
cached_error none boundary = cache_missing ∷ []
cached_error (some cached) boundary = report (boundary_agrees cached boundary) boundary_disagrees

-- the loop over `enumerate(expected, start=size)`
unfoldable pub expected_errors : ℕ → List Expected → List BoundaryRow → List Failure
expected_errors size [] stored = []
expected_errors size (boundary ∷ rest) stored =
    cached_error (boundary_at size stored) boundary ++ expected_errors (size + 1) rest stored

-- the loop over the stored sizes
unfoldable pub size_error : ℕ → ℕ → List Failure
size_error live_size size =
    if ltb size 1
    then boundary_invalid ∷ []
    else (if ltb live_size size then boundary_uncommitted ∷ [] else [])

unfoldable pub size_errors : ℕ → List BoundaryRow → List Failure
size_errors live_size [] = []
size_errors live_size (b ∷ stored) = size_error live_size b.log_size ++ size_errors live_size stored

-- `tails_match`: as many levels, with the same lengths and tails
unfoldable pub frontier_matches : Frontier → Frontier → Bool
frontier_matches [] [] = true
frontier_matches [] (w ∷ want) = false
frontier_matches (a ∷ actual) [] = false
frontier_matches (a ∷ actual) (w ∷ want) =
    (a.len == w.len) && nodes_eq a.tail w.tail && frontier_matches actual want

unfoldable pub length_matches : Option ℕ → ℕ → Bool
length_matches none live_size = live_size == 0
length_matches (some n) live_size = n == live_size

-- the last test: the frontier's length, then its tails when no append landed meanwhile
unfoldable pub frontier_errors : ℕ → ℕ → Option ℕ → Frontier → Frontier → List Failure
frontier_errors walked_size live_size frontier_length stored recomputed =
    if not (length_matches frontier_length live_size)
    then frontier_not_head ∷ []
    else (if live_size == walked_size
        then report (frontier_matches stored recomputed) frontier_disagrees
        else [])

-- `_boundary_cache_errors(...)`
unfoldable pub boundary_cache_errors :
    List Expected → List BoundaryRow → ℕ → ℕ → Option ℕ → Frontier → Frontier → List Failure
boundary_cache_errors expected stored walked_size live_size frontier_length stored_frontier
      recomputed =
    expected_errors 1 expected stored
    ++ (size_errors live_size stored
        ++ frontier_errors walked_size live_size frontier_length stored_frontier recomputed)

module _ {Doc : Type 0} where
  -- SELECT len FROM merkle_frontier WHERE level = 0
  unfoldable pub bottom_len : List (FrontierRow Doc) → Option ℕ
  bottom_len [] = none
  bottom_len (r ∷ rs) = let rest = bottom_len rs in if r.level == 0 then some r.len else rest

  -- SELECT MAX(seq) FROM log, with 0 for NULL
  unfoldable pub max_seq : List (LogRow Doc) → ℕ
  max_seq [] = 0
  max_seq (r ∷ rs) = max r.seq (max_seq rs)

module _ {Doc : Type 0} (env : Env Doc) where
  -- `_verify_boundary_cache_on(conn, leaves)`
  unfoldable pub verify_boundary_cache :
      Database Doc → List (Text × Text) → Outcome StoreError (List Failure)
  verify_boundary_cache db leaves = do
    (expected, recomputed) ← recompute_prefix env.sha256 leaves
    ok (elim (load_frontier env db.merkle_frontier) [
      | err e ↦ frontier_encoding ∷ []
      | ok stored ↦
          boundary_cache_errors expected db.boundaries (length leaves) (max_seq db.log)
            (bottom_len db.merkle_frontier) stored recomputed
    ])
