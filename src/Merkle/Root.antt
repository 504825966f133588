-- ===== src/Merkle/Root.antt =====
-- `_merkle_root`: the loop ends with one node on any fuel from the level's length up, and the top
-- of a tree's frontier holds the root.
use curator_skill_registry.Base.{
  Bytes, ℕ, zero, suc, ◌≤◌, ◌≡◌, refl, sym, ap, ◌∙◌, inl, inr, List, [], ◌∷◌, length, arith, ok,
  Bool-cases, ltb, true,
}
use curator_skill_registry.Merkle.{
  Frontier, last, next_level, merkle_loop, merkle_root, frontier_root, last_two,
}
use curator_skill_registry.Merkle.Levels.{length-next_level, Above, top, below, summary}

module _ (sha256 : Bytes → Bytes) where
  -- More fuel than the level's length changes nothing.
  pub merkle_loop-enough :
      (f g : ℕ) (xs : List Bytes)
      → length xs ≤ f
      → length xs ≤ g
      → merkle_loop sha256 f xs ≡ merkle_loop sha256 g xs
  unfolding merkle_loop
  merkle_loop-enough zero zero xs h h' = refl
  merkle_loop-enough zero (suc g) [] h h' = refl
  merkle_loop-enough zero (suc g) (x ∷ xs) h h' = absurd (omega arith)
  merkle_loop-enough (suc f) zero [] h h' = refl
  merkle_loop-enough (suc f) zero (x ∷ xs) h h' = absurd (omega arith)
  merkle_loop-enough (suc f) (suc g) xs h h' =
      ground (arith, length-next_level sha256 xs, merkle_loop-enough f g (next_level sha256 xs))

  -- The loop of `_merkle_root` on a nonempty level ends with exactly one node within as many
  -- rounds as the level is long.
  pub length-merkle_loop :
      (f : ℕ) (xs : List Bytes)
      → 1 ≤ length xs
      → length xs ≤ f
      → length (merkle_loop sha256 f xs) ≡ 1
  unfolding merkle_loop
  length-merkle_loop zero xs h h' = absurd (omega arith)
  length-merkle_loop (suc f) xs h h' = elim (Bool-cases (ltb 1 (length xs))) [
    | inl more ↦ rw more (
        length-merkle_loop f (next_level sha256 xs) (omega (arith, length-next_level sha256 xs))
          (ground (arith, length-next_level sha256 xs)))
    | inr one ↦ rw one (ground arith)
  ]

  pub merkle_root-next_level :
      (xs : List Bytes)
      → 2 ≤ length xs
      → merkle_root sha256 xs ≡ merkle_root sha256 (next_level sha256 xs)
  unfolding merkle_root merkle_loop
  merkle_root-next_level [] h = absurd (omega arith)
  merkle_root-next_level (x ∷ r) h =
      let v = next_level sha256 (x ∷ r) in
      let more : ltb 1 (length (x ∷ r)) ≡ true = ground arith in
      rw (
        more,
        merkle_loop-enough (length r) (length v) v (omega (arith, length-next_level sha256 (x ∷ r)))
            (omega arith),
      )

  -- The frontier's last node is the Merkle root.
  pub frontier_root-Above :
      {xs : List Bytes} {f : Frontier}
      → Above sha256 xs f
      → frontier_root (summary xs ∷ f) ≡ ok (merkle_root sha256 xs)
  unfolding frontier_root summary last last_two merkle_root merkle_loop
  frontier_root-Above (top (x ∷ []) h) = refl
  frontier_root-Above (top [] h) = absurd (omega arith)
  frontier_root-Above (top (x ∷ y ∷ r) h) = absurd (omega arith)
  frontier_root-Above (below xs h above) =
      frontier_root-Above above ∙ ap ok (sym (merkle_root-next_level xs h))
