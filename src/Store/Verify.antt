-- ===== src/Store/Verify.antt =====
-- `_recompute_prefix` of src/csk_registry/store.py: every boundary of a log and its frontier, from
-- the hash and the time of each entry. The startup verification and the background refresh share it.
pub mod Rebuild
pub mod Walk
pub mod Ledgers
pub mod Cache
pub mod Refresh
pub mod Verified
use curator_skill_registry.Base.{
  List, [], ◌∷◌, none, some, Text, hex, from_hex, Bytes, Outcome, ok, err, ◌>>=◌,
}
use curator_skill_registry.Merkle.{
  Frontier, FrontierError, inconsistent, tail_incomplete, depth_exceeded, index_error,
  frontier_append,
}
use curator_skill_registry.Store.{
  StoreError, integrity, frontier_inconsistent, frontier_tail_incomplete, frontier_depth,
}
use curator_skill_registry.Store.Append.{unhex}

-- the errors of the frontier code, which nothing latches here
unfoldable pub plain_failure : FrontierError → StoreError
plain_failure inconsistent = integrity frontier_inconsistent
plain_failure tail_incomplete = integrity frontier_tail_incomplete
plain_failure depth_exceeded = integrity frontier_depth
plain_failure index_error = StoreError.index_error

unfoldable pub of_plain : {A : Type 0} → Outcome FrontierError A → Outcome StoreError A
of_plain (ok a) = ok a
of_plain (err e) = err (plain_failure e)

-- The hash, the root in hexadecimal and the time of a prefix.
pub record Expected : Type 0 where
  pub head : Text
  pub merkle_root : Text
  pub created_at : Text

module _ (sha256 : Bytes → Bytes) where
  -- the loop over the leaves, from the frontier that the earlier ones left
  unfoldable pub recompute_from :
      Frontier → List (Text × Text) → Outcome StoreError (List Expected × Frontier)
  recompute_from f [] = ok ([], f)
  recompute_from f ((entry_hash, created_at) ∷ rest) = do
    leaf ← unhex entry_hash
    (grown, root) ← of_plain (frontier_append sha256 f leaf)
    (expected, final) ← recompute_from grown rest
    ok (
      record { head = entry_hash; merkle_root = hex root; created_at = created_at } ∷ expected,
      final,
    )

  -- `_recompute_prefix(leaves)`
  unfoldable pub recompute_prefix :
      List (Text × Text) → Outcome StoreError (List Expected × Frontier)
  recompute_prefix leaves = recompute_from [] leaves
