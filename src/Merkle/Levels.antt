-- ===== src/Merkle/Levels.antt =====
-- The levels of a Merkle tree and what a frontier keeps of each: the length and the last two
-- nodes. Laws of `next_level` and of Python's negative indices on lists that end in known nodes.
use curator_skill_registry.Base.{
  Bytes, ◌+◌, ◌/◌, ◌%◌, ◌≤◌, ◌≡◌, refl, ap, List, [], ◌∷◌, ◌++◌, length, length-append,
  append_assoc, arith, ok,
}
use curator_skill_registry.Merkle.{
  Frontier, FrontierLevel, last, last_two, merkle_pair_hash, next_level,
}

-- A nonempty list has a last node.
pub snoc : (xs : List Bytes) → 1 ≤ length xs → (m : List Bytes) × (w : Bytes) × (xs ≡ m ++ w ∷ [])
snoc [] h = absurd (omega arith)
snoc (x ∷ []) h = ([], x, refl)
snoc (x ∷ y ∷ r) h = let (m, w, e) = snoc (y ∷ r) (omega arith) in (x ∷ m, w, ap (◌∷◌ x) e)

pub length-snoc : (m : List Bytes) (w : Bytes) → length (m ++ w ∷ []) ≡ length m + 1
length-snoc m w = omega (arith, length-append m (w ∷ []))

pub length-snoc_two : (m : List Bytes) (v z : Bytes) → length (m ++ v ∷ z ∷ []) ≡ length m + 2
length-snoc_two m v z = omega (arith, length-append m (v ∷ z ∷ []))

pub last-snoc : (m : List Bytes) (z : Bytes) → last (m ++ z ∷ []) ≡ ok z
unfolding last
last-snoc [] z = refl
last-snoc (x ∷ []) z = refl
last-snoc (x ∷ y ∷ r) z = last-snoc (y ∷ r) z

pub last_two-snoc : (m : List Bytes) (v z : Bytes) → last_two (m ++ v ∷ z ∷ []) ≡ v ∷ z ∷ []
unfolding last_two
last_two-snoc [] v z = refl
last_two-snoc (x ∷ []) v z = refl
last_two-snoc (x ∷ y ∷ []) v z = refl
last_two-snoc (x ∷ y ∷ w ∷ r) v z = last_two-snoc (y ∷ w ∷ r) v z

pub last-last_two : (xs : List Bytes) → last (last_two xs) ≡ last xs
unfolding last last_two
last-last_two [] = refl
last-last_two (x ∷ []) = refl
last-last_two (x ∷ y ∷ []) = refl
last-last_two (x ∷ y ∷ w ∷ r) = last-last_two (y ∷ w ∷ r)

-- A list of two nodes or more has two last nodes.
pub snoc_two :
    (xs : List Bytes)
    → 2 ≤ length xs
    → (m : List Bytes) × (v : Bytes) × (z : Bytes) × (xs ≡ m ++ v ∷ z ∷ [])
snoc_two [] h = absurd (omega arith)
snoc_two (x ∷ []) h = absurd (omega arith)
snoc_two (x ∷ y ∷ []) h = ([], x, y, refl)
snoc_two (x ∷ y ∷ w ∷ r) h =
    let (m, v, z, e) = snoc_two (y ∷ w ∷ r) (omega arith) in (x ∷ m, v, z, ap (◌∷◌ x) e)

pub snoc_snoc : (m : List Bytes) (v z : Bytes) → (m ++ v ∷ []) ++ z ∷ [] ≡ m ++ v ∷ z ∷ []
snoc_snoc m v z = append_assoc m (v ∷ []) (z ∷ [])

unfoldable pub summary : List Bytes → FrontierLevel
summary xs = record { len = length xs; tail = last_two xs }

module _ (sha256 : Bytes → Bytes) where
  pub length-next_level : (xs : List Bytes) → length (next_level sha256 xs) ≡ (length xs + 1) / 2
  unfolding next_level
  length-next_level [] = omega arith
  length-next_level (x ∷ []) = omega arith
  length-next_level (x ∷ y ∷ r) = omega (arith, length-next_level r)

  -- Behind an even number of nodes, two nodes are a pair and one is paired with itself.
  pub next_level-even_one :
      (m : List Bytes) (z : Bytes)
      → length m % 2 ≡ 0
      → next_level sha256 (m ++ z ∷ []) ≡ next_level sha256 m ++ merkle_pair_hash sha256 z z ∷ []
  unfolding next_level
  next_level-even_one [] z h = refl
  next_level-even_one (x ∷ []) z h = absurd (omega arith)
  next_level-even_one (x ∷ y ∷ r) z h =
      ap (◌∷◌ (merkle_pair_hash sha256 x y)) (next_level-even_one r z (omega arith))

  pub next_level-even_two :
      (m : List Bytes) (v z : Bytes)
      → length m % 2 ≡ 0
      → next_level sha256 (m ++ v ∷ z ∷ [])
        ≡ next_level sha256 m ++ merkle_pair_hash sha256 v z ∷ []
  unfolding next_level
  next_level-even_two [] v z h = refl
  next_level-even_two (x ∷ []) v z h = absurd (omega arith)
  next_level-even_two (x ∷ y ∷ r) v z h =
      ap (◌∷◌ (merkle_pair_hash sha256 x y)) (next_level-even_two r v z (omega arith))

  -- What a frontier keeps above the level `xs`: nothing if it is the top.
  pub data Above : List Bytes → Frontier → Type 0 where
    top : (xs : List Bytes) → length xs ≡ 1 → Above xs []
    below :
        (xs : List Bytes) {f : Frontier}
        → 2 ≤ length xs
        → Above (next_level sha256 xs) f
        → Above xs (summary (next_level sha256 xs) ∷ f)

  -- The frontier of the tree over `leaves`.
  pub data Represents : List Bytes → Frontier → Type 0 where
    empty : Represents [] []
    tree :
        (leaves : List Bytes) {f : Frontier}
        → Above leaves f
        → Represents leaves (summary leaves ∷ f)

  pub Above-nonempty : {xs : List Bytes} {f : Frontier} → Above xs f → 1 ≤ length xs
  Above-nonempty (top xs h) = omega arith
  Above-nonempty (below xs h above) = omega arith

  pub Represents-empty :
      {leaves : List Bytes} {f : Frontier} → Represents leaves f → length leaves ≡ 0 → f ≡ []
  Represents-empty empty h = refl
  Represents-empty (tree leaves above) h = absurd (omega (arith, Above-nonempty above))

  pub Represents-tree :
      {leaves : List Bytes} {f : Frontier}
      → Represents leaves f
      → 1 ≤ length leaves
      → (g : Frontier) × Above leaves g × (f ≡ summary leaves ∷ g)
  Represents-tree empty h = absurd (omega arith)
  Represents-tree (tree leaves {f} above) h = (f, above, refl)
