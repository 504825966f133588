-- ===== src/Store/Invariant/Saved.antt =====
-- The frontier that `_save_frontier` writes is the one that `_load_frontier` reads.
use curator_skill_registry.Base.{
  ℕ, suc, ◌+◌, ◌≤◌, ◌≡◌, refl, ap, List, [], ◌∷◌, some, Bytes, hex, from_hex-hex, hex256-hex,
  IsDigest, ok, length, map, arith, ◌==◌, ltb, leb, true, false, All,
}
use curator_skill_registry.Json.Laws.{items-of_list}
use curator_skill_registry.Json.{str}
use curator_skill_registry.Merkle.{Frontier, FrontierLevel, last_two, next_level, merkle_pair_hash}
use curator_skill_registry.Merkle.Levels.{Above, top, below, Represents, empty, tree, summary}
use curator_skill_registry.Signing.{Env}
use curator_skill_registry.Store.Frontier.{
  decode_tail, tail_items, load_level, load_from, load_frontier, encode_tail, save_from,
  save_frontier,
}

-- A level whose row can be read back.
pub record IsLevel (l : FrontierLevel) : Type 0 where
  pub digests : All IsDigest l.tail
  pub some_nodes : 1 ≤ length l.tail
  pub few_nodes : length l.tail ≤ 2
  pub fits : length l.tail ≤ l.len

decode_tail-encode :
    (bs : List Bytes) → All IsDigest bs → decode_tail (map (λ b. str (hex b)) bs) ≡ ok bs
unfolding decode_tail
decode_tail-encode [] h = refl
decode_tail-encode (b ∷ bs) h =
    rw (hex256-hex b h.0, decode_tail-encode bs h.1, from_hex-hex b (h.0).bytes)

length-map-hex : (bs : List Bytes) → length (map (λ b. str (hex b)) bs) ≡ length bs
length-map-hex [] = refl
length-map-hex (b ∷ bs) = ap suc (length-map-hex bs)

module _ {Doc : Type 0} (env : Env Doc) where
  tail_items-encode :
      (bs : List Bytes)
      → 1 ≤ length bs
      → length bs ≤ 2
      → tail_items (some (encode_tail env bs)) ≡ ok (map (λ b. str (hex b)) bs)
  unfolding tail_items encode_tail
  tail_items-encode bs h h' =
      let low : leb 1 (length bs) ≡ true = ground arith in
      let high : leb (length bs) 2 ≡ true = ground arith in
      rw (items-of_list, length-map-hex, low, high)

  load_level-save :
      (n : ℕ) (l : FrontierLevel)
      → IsLevel l
      → load_level env
          (record { level = n; len = l.len; tail = env.dumps (encode_tail env l.tail) })
        ≡ ok l
  unfolding load_level
  load_level-save n l h =
      let long : ltb l.len 1 ≡ false = ground arith in
      let fits : ltb l.len (length l.tail) ≡ false = ground arith in
      rw (
        env.loads-dumps,
        tail_items-encode l.tail h.some_nodes h.few_nodes,
        decode_tail-encode l.tail h.digests,
        long,
        fits,
      )

  load_from-save_from :
      (n : ℕ) (f : Frontier) → All IsLevel f → load_from env n (save_from env n f) ≡ ok f
  unfolding load_from save_from
  load_from-save_from n [] h = refl
  load_from-save_from n (l ∷ f) h =
      let same : (n == n) ≡ true = ground arith in
      rw (same, load_level-save n l h.0, load_from-save_from (n + 1) f h.1)

  -- Reading the frontier table after a frontier was saved gives that frontier, where each level
  -- has one or two digests as its tail and at least as many nodes.
  pub load_frontier-save_frontier :
      (f : Frontier) → All IsLevel f → load_frontier env (save_frontier env f) ≡ ok f
  unfolding load_frontier save_frontier
  load_frontier-save_frontier f h = load_from-save_from 0 f h

  All-last_two : (bs : List Bytes) → All IsDigest bs → All IsDigest (last_two bs)
  unfolding last_two
  All-last_two [] h = h
  All-last_two (x ∷ []) h = h
  All-last_two (x ∷ y ∷ []) h = h
  All-last_two (x ∷ y ∷ z ∷ r) h = All-last_two (y ∷ z ∷ r) h.1

  length-last_two_bounds :
      (bs : List Bytes)
      → 1 ≤ length bs
      → (1 ≤ length (last_two bs)) × (length (last_two bs) ≤ 2) × (length (last_two bs) ≤ length bs)
  unfolding last_two
  length-last_two_bounds [] h = absurd (omega arith)
  length-last_two_bounds (x ∷ []) h = omega arith
  length-last_two_bounds (x ∷ y ∷ []) h = omega arith
  length-last_two_bounds (x ∷ y ∷ z ∷ r) h = omega (arith, length-last_two_bounds (y ∷ z ∷ r))

  summary-IsLevel : (bs : List Bytes) → All IsDigest bs → 1 ≤ length bs → IsLevel (summary bs)
  unfolding summary
  summary-IsLevel bs h h' =
      let b = length-last_two_bounds bs h' in
      record { digests = All-last_two bs h; some_nodes = b.0; few_nodes = b.1; fits = b.2 }

  All-next_level : (bs : List Bytes) → All IsDigest (next_level env.sha256 bs)
  unfolding next_level merkle_pair_hash
  All-next_level [] = tt
  All-next_level (x ∷ []) = (env.sha256-IsDigest _, tt)
  All-next_level (x ∷ y ∷ r) = (env.sha256-IsDigest _, All-next_level r)

  nonempty-next_level : (bs : List Bytes) → 1 ≤ length bs → 1 ≤ length (next_level env.sha256 bs)
  unfolding next_level
  nonempty-next_level [] h = absurd (omega arith)
  nonempty-next_level (x ∷ []) h = omega arith
  nonempty-next_level (x ∷ y ∷ r) h = omega arith

  Above-levels : {bs : List Bytes} {f : Frontier} → Above env.sha256 bs f → All IsLevel f
  Above-levels (top bs h) = tt
  Above-levels (below bs h above) = (
    summary-IsLevel (next_level env.sha256 bs) (All-next_level bs)
        (nonempty-next_level bs (omega arith)),
    Above-levels above,
  )

  pub Represents-levels :
      {bs : List Bytes} {f : Frontier}
      → Represents env.sha256 bs f
      → All IsDigest bs
      → All IsLevel f
  Represents-levels empty h = tt
  Represents-levels (tree bs (top bs' e)) h = (summary-IsLevel bs h (omega arith), tt)
  Represents-levels (tree bs (below bs' e above)) h =
      (summary-IsLevel bs h (omega arith), Above-levels (below bs e above))
