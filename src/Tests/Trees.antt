-- ===== src/Tests/Trees.antt =====
-- The Merkle tree, canonical values and import decisions on concrete inputs.
use curator_skill_registry.Base.{
  ◌≤◌, ◌≡◌, ◌↔◌, refl, List, [], ◌∷◌, ◌++◌, some, Bytes, ok, length, arith, true, codes,
}
use curator_skill_registry.Json.{str, arr, cons, nil}
use curator_skill_registry.Json.Canonical.{
  validate_ccj, is_plain, nesting, max_json_depth, validate_ccj_iff,
}
use curator_skill_registry.Merkle.{
  FrontierLevel, Frontier, frontier_append, merkle_root, merkle_loop, next_level, merkle_pair_hash,
}
use curator_skill_registry.Merkle.Levels.{Represents, empty}
use curator_skill_registry.Merkle.Append.{frontier_append-Represents}
use curator_skill_registry.Merkle.Root.{length-merkle_loop}
use curator_skill_registry.Store.Imports.{import_decision, accepted_older}
use curator_skill_registry.Store.Imports.Marks.{Decided, import_decision_iff}
use curator_skill_registry.Store.Frontier.{load_frontier, save_frontier}
use curator_skill_registry.Store.Invariant.Saved.{IsLevel, load_frontier-save_frontier}
use curator_skill_registry.Tests.Sample.{env, digest-IsDigest, digest, mark}

-- the leaves of two entries
abbrev two_leaves : List Bytes
two_leaves = digest (1 ∷ []) ∷ digest (2 ∷ []) ∷ []

one_leaf :
    (f' : Frontier) × (frontier_append digest [] (digest (1 ∷ []))
      ≡ ok (f', merkle_root digest ([] ++ digest (1 ∷ []) ∷ [])))
    × Represents digest ([] ++ digest (1 ∷ []) ∷ []) f'
one_leaf = frontier_append-Represents digest (digest (1 ∷ [])) empty (omega arith)

frontier_append-Represents_example :
    (f' : Frontier) × (frontier_append digest one_leaf.0 (digest (2 ∷ []))
      ≡ ok (f', merkle_root digest two_leaves))
    × Represents digest two_leaves f'
frontier_append-Represents_example =
    frontier_append-Represents digest (digest (2 ∷ [])) one_leaf.2 (omega arith)

length-merkle_loop_example : length (merkle_loop digest 2 two_leaves) ≡ 1
length-merkle_loop_example = length-merkle_loop digest 2 two_leaves (omega arith) (omega arith)

validate_ccj_iff_example : (validate_ccj (arr (cons (str (codes "a")) nil)) 0 ≡ ok tt) ↔ (
    (is_plain (arr (cons (str (codes "a")) nil)) ≡ true)
    × (nesting (arr (cons (str (codes "a")) nil)) ≤ max_json_depth))
validate_ccj_iff_example = validate_ccj_iff (arr (cons (str (codes "a")) nil))

import_decision_iff_example :
    (import_decision (some (mark 5)) (mark 3) true ≡ ok accepted_older)
    ↔ Decided (some (mark 5)) (mark 3) true (ok accepted_older)
import_decision_iff_example = import_decision_iff (some (mark 5)) (mark 3) true (ok accepted_older)

-- The pair is hashed into one node.
two_leaves_root : merkle_root digest two_leaves ≡ digest (digest (1 ∷ []) ++ digest (2 ∷ []))
unfolding merkle_root merkle_loop next_level merkle_pair_hash
two_leaves_root = refl

abbrev bottom : FrontierLevel
bottom = record { len = 1; tail = digest (1 ∷ []) ∷ [] }

bottom-IsLevel : IsLevel bottom
bottom-IsLevel = record {
  digests = (digest-IsDigest (1 ∷ []), tt);
  some_nodes = omega arith;
  few_nodes = omega arith;
  fits = omega arith;
}

load_frontier-save_frontier_example :
    load_frontier env (save_frontier env (bottom ∷ [])) ≡ ok (bottom ∷ [])
load_frontier-save_frontier_example =
    load_frontier-save_frontier env (bottom ∷ []) (bottom-IsLevel, tt)
