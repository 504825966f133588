-- ===== src/Merkle/Append.antt =====
-- `_frontier_append` on a frontier that represents a tree: it never raises below 2 ^ 64 leaves,
-- keeps the representation, and returns the root that `_merkle_root` computes from scratch.
use curator_skill_registry.Base.{
  Bytes, ℕ, zero, suc, ◌+◌, ◌/◌, ◌^◌, ◌≤◌, ◌<◌, ◌≡◌, refl, sym, ap, ◌∙◌, inl, inr, List, [], ◌∷◌,
  ◌++◌, length, arith, ok, Outcome, Bool-cases, ◌==◌, ==_iff, true, false, subst, ltb, leb,
  if◌then◌else◌, not, ◌&&◌,
}
use native.Mathlib.Nat.{pow-suc, le_trans}
use curator_skill_registry.Merkle.{
  Frontier, FrontierError, first, last, last_two, next_level, last_pair, upper_tail, finish_level,
  climb, frontier_append, frontier_root, merkle_root, merkle_loop,
}
use curator_skill_registry.Merkle.Levels.{
  snoc, snoc_two, snoc_snoc, length-snoc, last-snoc, last_two-snoc, last-last_two, summary,
  length-next_level, Above, top, below, Represents, Above-nonempty, empty, tree,
}
use curator_skill_registry.Merkle.Root.{frontier_root-Above}
use curator_skill_registry.Merkle.Growth.{
  Grows, appended, replaced, Grows-next_level, last_pair-last_two, upper_tail-summary,
}

singleton : (xs : List Bytes) → length xs ≡ 1 → (c : Bytes) × (xs ≡ c ∷ [])
singleton [] h = absurd (omega arith)
singleton (x ∷ []) h = (x, refl)
singleton (x ∷ y ∷ r) h = absurd (omega arith)

length-last_two : (xs : List Bytes) → 2 ≤ length xs → length (last_two xs) ≡ 2
length-last_two xs h = let (m, v, z, e) = snoc_two xs h in rw (e, last_two-snoc) refl

last-nonempty : (xs : List Bytes) → 1 ≤ length xs → (c : Bytes) × (last xs ≡ ok c)
last-nonempty xs h = let (m, c, e) = snoc xs h in (c, rw e (last-snoc m c))

Grows-length :
    {xs ys : List Bytes} → Grows xs ys → (length xs ≤ length ys) × (length ys ≤ length xs + 1)
Grows-length {xs} (appended z e) = omega (arith, ap length e, length-snoc xs z)
Grows-length (replaced m w z e e') =
    omega (arith, ap length e, ap length e', length-snoc m w, length-snoc m z)

tail_complete :
    (xs : List Bytes) → not (leb 2 (length xs) && not (length (last_two xs) == 2)) ≡ true
tail_complete xs = elim (Bool-cases (leb 2 (length xs))) [
  | inl two ↦ ground (arith, length-last_two xs)
  | inr one ↦ rw one
]

two-le-pow : (r : ℕ) → 2 ≤ 2 ^ r → 1 ≤ r
two-le-pow zero h = absurd (omega arith)
two-le-pow (suc r) h = omega arith

-- Both ways to read the bottom level's last node.
bottom_node :
    (m : List Bytes) (b : Bytes)
    → (if length (m ++ b ∷ []) == 1
        then first (last_two (m ++ b ∷ []))
        else last (last_two (m ++ b ∷ [])))
      ≡ ok b
unfolding first last_two
bottom_node [] b = refl
bottom_node (x ∷ r) b =
    ground (arith, last-last_two (x ∷ r ++ b ∷ []), last-snoc (x ∷ r) b, length-snoc r b)

finish_level-top :
    (k : ℕ) (v : List Bytes) (rest : Outcome FrontierError Frontier)
    → (length v == 1) ≡ true
    → finish_level k (summary v) rest ≡ ok (summary v ∷ [])
unfolding finish_level summary
finish_level-top k v rest h = rw h

finish_level-on :
    (k : ℕ) (v : List Bytes) (rest : Outcome FrontierError Frontier) {f : Frontier}
    → (length v == 1) ≡ false
    → k ≤ 63
    → rest ≡ ok f
    → finish_level k (summary v) rest ≡ ok (summary v ∷ f)
unfolding finish_level summary
finish_level-on k v rest h low e =
    let shallow : ltb 64 (k + 1) ≡ false = ground arith in rw (h, shallow, e)

module _ (sha256 : Bytes → Bytes) where
  -- One round of the loop, with the hashes and tails it computes.
  climb-round :
      {xs ys : List Bytes} (g : Frontier) (k : ℕ)
      → Grows xs ys
      → 1 ≤ length xs
      → 2 ≤ length ys
      → climb sha256 (summary (next_level sha256 xs) ∷ g) k (length ys) (last_two ys)
        ≡ finish_level k (summary (next_level sha256 ys)) (
            climb sha256 g
              (k + 1)
              (length (next_level sha256 ys))
              (last_two (next_level sha256 ys)))
  unfolding climb summary
  climb-round {xs} {ys} g k grown h h' =
      let v = next_level sha256 ys in
      let (c, l) = last-nonempty v (omega (arith, length-next_level sha256 ys)) in
      let pos : 1 ≤ length (next_level sha256 xs) = omega (arith, length-next_level sha256 xs) in
      let long : leb (length ys) 1 ≡ false = ground arith in
      let hashed : last_pair sha256 (length ys) (last_two ys) ≡ ok c =
        last_pair-last_two sha256 ys h' ∙ l in
      let written : upper_tail (length v) (summary (next_level sha256 xs)) c ≡ ok (last_two v) =
        upper_tail-summary (Grows-next_level sha256 grown) pos c l in
      rw (
        long,
        hashed,
        tail_complete (next_level sha256 xs),
        sym (length-next_level sha256 ys),
        written,
      )

  climb-top :
      (ys : List Bytes) (k : ℕ)
      → length ys ≡ 2
      → (f : Frontier) × (climb sha256 [] k (length ys) (last_two ys) ≡ ok f) × Above sha256 ys f
  unfolding climb summary last last_two
  climb-top ys k h =
      let (c, e) = singleton (next_level sha256 ys) (omega (arith, length-next_level sha256 ys)) in
      let long : leb (length ys) 1 ≡ false = ground arith in
      let half : ((length ys + 1) / 2 == 1) ≡ true = ground arith in
      let hashed : last_pair sha256 (length ys) (last_two ys) ≡ ok c =
        last_pair-last_two sha256 ys (omega arith) ∙ ap last e in
      (
        record { len = 1; tail = c ∷ [] } ∷ [],
        rw (long, hashed, half),
        subst (λ v. Above sha256 ys (summary v ∷ [])) e
            (below ys (omega arith) (top (next_level sha256 ys) (ap length e))),
      )

  climb-Above :
      {xs ys : List Bytes} {f : Frontier} (k r : ℕ)
      → Above sha256 xs f
      → Grows xs ys
      → 2 ≤ length ys
      → length ys ≤ 2 ^ r
      → k + r ≡ 65
      → (f' : Frontier) × (climb sha256 f k (length ys) (last_two ys) ≡ ok f') × Above sha256 ys f'
  climb-Above {ys = ys} k r (top xs h) grown h' bound e =
      climb-top ys k (omega (arith, Grows-length grown))
  climb-Above {ys = ys} k zero (below xs {f} h above) grown h' bound e = absurd (omega arith)
  climb-Above {ys = ys} k (suc r) (below xs {f} h above) grown h' bound e =
      let v = next_level sha256 ys in
      let size : length v ≡ (length ys + 1) / 2 = length-next_level sha256 ys in
      rw (climb-round f k grown (omega arith) h') (elim (Bool-cases (length v == 1)) [
        | inl one ↦
            (summary v ∷ [], finish_level-top k v _ one, below ys h' (top v ((==_iff _ _).0 one)))
        | inr more ↦
            let wide : 2 ≤ length v = ground arith in
            let half : length v ≤ 2 ^ r = omega (arith, pow-suc 2 r) in
            let low : k ≤ 63 = omega (arith, two-le-pow r (le_trans wide half)) in
            let (f', go, a') =
              climb-Above (k + 1) r above (Grows-next_level sha256 grown) wide half (omega arith) in
            (summary v ∷ f', finish_level-on k v _ more low go, below ys h' a')
      ])

  append-empty :
      (leaf : Bytes)
      → (f : Frontier) × (frontier_append sha256 [] leaf ≡ ok (f, merkle_root sha256 (leaf ∷ [])))
        × Represents sha256 (leaf ∷ []) f
  unfolding frontier_append merkle_root merkle_loop
  append-empty leaf = (
    summary (leaf ∷ []) ∷ [],
    unfold summary last_two in refl,
    tree (leaf ∷ []) (top (leaf ∷ []) refl),
  )

  -- The handler, from what its steps return.
  append-parts :
      (xs ys : List Bytes) (g f : Frontier) (leaf b : Bytes)
      → (if length xs == 1 then first (last_two xs) else last (last_two xs)) ≡ ok b
      → length ys ≡ length xs + 1
      → last_two ys ≡ b ∷ leaf ∷ []
      → climb sha256 g 1 (length ys) (last_two ys) ≡ ok f
      → frontier_root (summary ys ∷ f) ≡ ok (merkle_root sha256 ys)
      → frontier_append sha256 (summary xs ∷ g) leaf ≡ ok (summary ys ∷ f, merkle_root sha256 ys)
  unfolding frontier_append summary
  append-parts xs ys g f leaf b node size ends go root = rw (node, ← size, ← ends, go, root)

  append-tree :
      (xs : List Bytes) {g : Frontier} (leaf : Bytes)
      → Above sha256 xs g
      → length xs < 2 ^ 64
      → (f : Frontier) × (frontier_append sha256 (summary xs ∷ g) leaf
          ≡ ok (f, merkle_root sha256 (xs ++ leaf ∷ [])))
        × Represents sha256 (xs ++ leaf ∷ []) f
  append-tree xs {g} leaf above bound =
      let (m, b, e) = snoc xs (Above-nonempty sha256 above) in
      let ys = xs ++ leaf ∷ [] in
      let size : length ys ≡ length xs + 1 = length-snoc xs leaf in
      let ends : last_two ys ≡ b ∷ leaf ∷ [] =
        rw (e, snoc_snoc m b leaf) (last_two-snoc m b leaf) in
      let (f, go, above') =
        climb-Above 1 64 above (appended leaf refl) (omega (arith, Above-nonempty sha256 above))
          (omega arith) refl in
      let node : (if length xs == 1 then first (last_two xs) else last (last_two xs)) ≡ ok b =
        rw e (bottom_node m b) in
      (
        summary ys ∷ f,
        append-parts xs ys g f leaf b node size ends go (frontier_root-Above sha256 above'),
        tree ys above',
      )

  -- On a frontier that represents fewer than 2^64 leaves `_frontier_append` raises nothing: it
  -- returns the root that `_merkle_root` computes over all leaves from scratch, and a frontier
  -- that represents the leaves with the new one behind them.
  pub frontier_append-Represents :
      {leaves : List Bytes} {f : Frontier} (leaf : Bytes)
      → Represents sha256 leaves f
      → length leaves < 2 ^ 64
      → (f' : Frontier) × (frontier_append sha256 f leaf
          ≡ ok (f', merkle_root sha256 (leaves ++ leaf ∷ [])))
        × Represents sha256 (leaves ++ leaf ∷ []) f'
  frontier_append-Represents leaf empty h = append-empty leaf
  frontier_append-Represents leaf (tree leaves above) h = append-tree leaves leaf above h
