-- ===== src/Merkle/Growth.antt =====
-- How one more leaf changes each level of a Merkle tree: its last node is replaced, or a node is
-- appended. The steps of `_frontier_append` on one level.
use curator_skill_registry.Base.{
  Bytes, subst, ℕ, ◌+◌, ◌%◌, ◌≤◌, ◌≡◌, refl, sym, ap, ◌⊎◌, inl, inr, List, [], ◌∷◌, ◌++◌, length,
  arith, ok,
}
use curator_skill_registry.Merkle.{
  last, second_last, last_two, merkle_pair_hash, next_level, last_pair, upper_tail,
}
use curator_skill_registry.Merkle.Levels.{
  snoc, snoc_two, snoc_snoc, length-snoc, length-snoc_two, last-snoc, last-last_two, last_two-snoc,
  summary, next_level-even_one, next_level-even_two,
}

pub data Grows (xs ys : List Bytes) : Type 0 where
  appended : (z : Bytes) → ys ≡ xs ++ z ∷ [] → Grows xs ys
  replaced : (m : List Bytes) (w z : Bytes) → xs ≡ m ++ w ∷ [] → ys ≡ m ++ z ∷ [] → Grows xs ys

parity : (n : ℕ) → (n % 2 ≡ 0) ⊎ (n % 2 ≡ 1)
parity n = omega arith

module _ (sha256 : Bytes → Bytes) where
  appended-next_level :
      (m : List Bytes) (z : Bytes) → Grows (next_level sha256 m) (next_level sha256 (m ++ z ∷ []))
  appended-next_level m z = elim (parity (length m)) [
    | inl even ↦ appended (merkle_pair_hash sha256 z z) (next_level-even_one sha256 m z even)
    | inr odd ↦
        let (p, w, e) = snoc m (omega arith) in
        let even : length p % 2 ≡ 0 = omega (arith, length-snoc p w, ap length e) in
        replaced (next_level sha256 p) (merkle_pair_hash sha256 w w) (merkle_pair_hash sha256 w z)
          (rw e (next_level-even_one sha256 p w even))
          (rw (e, snoc_snoc) (next_level-even_two sha256 p w z even))
  ]

  replaced-next_level :
      (m : List Bytes) (w z : Bytes)
      → Grows (next_level sha256 (m ++ w ∷ [])) (next_level sha256 (m ++ z ∷ []))
  replaced-next_level m w z = elim (parity (length m)) [
    | inl even ↦
        replaced (next_level sha256 m) (merkle_pair_hash sha256 w w) (merkle_pair_hash sha256 z z)
          (next_level-even_one sha256 m w even) (next_level-even_one sha256 m z even)
    | inr odd ↦
        let (p, v, e) = snoc m (omega arith) in
        let even : length p % 2 ≡ 0 = omega (arith, length-snoc p v, ap length e) in
        replaced (next_level sha256 p) (merkle_pair_hash sha256 v w) (merkle_pair_hash sha256 v z)
          (rw (e, snoc_snoc) (next_level-even_two sha256 p v w even))
          (rw (e, snoc_snoc) (next_level-even_two sha256 p v z even))
  ]

  -- The level above grows in the same way.
  pub Grows-next_level :
      {xs ys : List Bytes} → Grows xs ys → Grows (next_level sha256 xs) (next_level sha256 ys)
  Grows-next_level {xs} (appended z e) = rw e (appended-next_level xs z)
  Grows-next_level (replaced m w z e e') = rw (e, e') (replaced-next_level m w z)

  last_pair-even :
      (m : List Bytes) (v z : Bytes)
      → length m % 2 ≡ 0
      → last_pair sha256 (length m + 2) (v ∷ z ∷ []) ≡ last (next_level sha256 (m ++ v ∷ z ∷ []))
  unfolding last_pair last second_last
  last_pair-even m v z even = ground (
    arith,
    ap last (next_level-even_two sha256 m v z even),
    last-snoc (next_level sha256 m) (merkle_pair_hash sha256 v z),
  )

  last_pair-odd :
      (m : List Bytes) (v z : Bytes)
      → length m % 2 ≡ 1
      → last_pair sha256 (length m + 2) (v ∷ z ∷ []) ≡ last (next_level sha256 (m ++ v ∷ z ∷ []))
  unfolding last_pair last second_last
  last_pair-odd m v z odd = rw (← snoc_snoc m v z) (
      rw (next_level-even_one sha256 (m ++ v ∷ []) z (omega (arith, length-snoc m v)))
        (rw last-snoc (ground arith)))

  -- The hash that the code makes of a level's last nodes is the last node of the level above.
  pub last_pair-last_two :
      (ys : List Bytes)
      → 2 ≤ length ys
      → last_pair sha256 (length ys) (last_two ys) ≡ last (next_level sha256 ys)
  last_pair-last_two ys h =
      let (m, v, z, e) = snoc_two ys h in
      rw (e, last_two-snoc, length-snoc_two)
        (elim (parity (length m)) [
          | inl even ↦ last_pair-even m v z even
          | inr odd ↦ last_pair-odd m v z odd
        ])

-- The code's two ways to write an upper level's tail both give the last two nodes.
upper_tail-appended :
    (m : List Bytes) (b c : Bytes)
    → upper_tail (length m + 2) (summary (m ++ b ∷ [])) c ≡ ok (b ∷ c ∷ [])
unfolding upper_tail summary last_two
upper_tail-appended m b c =
    ground (arith, length-snoc m b, last-last_two (m ++ b ∷ []), last-snoc m b)

upper_tail-replaced_only : (w c : Bytes) → upper_tail 1 (summary (w ∷ [])) c ≡ ok (c ∷ [])
unfolding upper_tail summary
upper_tail-replaced_only w c = refl

upper_tail-replaced :
    (p : List Bytes) (a w c : Bytes)
    → upper_tail (length p + 2) (summary (p ++ a ∷ w ∷ [])) c ≡ ok (a ∷ c ∷ [])
unfolding upper_tail summary second_last
upper_tail-replaced p a w c = ground (arith, length-snoc_two p a w, last_two-snoc p a w)

upper_tail-same_length :
    (m : List Bytes) (w c : Bytes)
    → upper_tail (length (m ++ c ∷ [])) (summary (m ++ w ∷ [])) c ≡ ok (last_two (m ++ c ∷ []))
unfolding last_two
upper_tail-same_length [] w c = upper_tail-replaced_only w c
upper_tail-same_length (x ∷ r) w c =
    let (p, a, e) = snoc (x ∷ r) (omega arith) in
    subst
      (λ m.
        upper_tail (length (m ++ c ∷ [])) (summary (m ++ w ∷ [])) c ≡ ok (last_two (m ++ c ∷ [])))
      (sym e)
      (rw (snoc_snoc p a c, snoc_snoc p a w, last_two-snoc, length-snoc_two)
        (upper_tail-replaced p a w c))

pub upper_tail-summary :
    {xs ys : List Bytes}
    → Grows xs ys
    → 1 ≤ length xs
    → (c : Bytes) → last ys ≡ ok c
    → upper_tail (length ys) (summary xs) c ≡ ok (last_two ys)
upper_tail-summary {xs} {ys} (appended z e) h c l =
    let (m, b, e') = snoc xs h in
    let is_last : z ≡ c = cc (l, ap last e, last-snoc xs z) in
    rw (e, is_last, e', snoc_snoc m b c, last_two-snoc, length-snoc_two) (upper_tail-appended m b c)
upper_tail-summary {xs} {ys} (replaced m w z e e') h c l =
    let is_last : z ≡ c = cc (l, ap last e', last-snoc m z) in
    rw (e, e', is_last) (upper_tail-same_length m w c)
