-- ===== src/Store/Verify/Cache/Clean.antt =====
-- The comparison of the cache tables finds nothing in consistent tables.
use curator_skill_registry.Base.{
  ℕ, suc, ◌+◌, ◌^◌, ◌≤◌, ◌≡◌, refl, sym, ◌∙◌, subst, true, false, List, [], ◌∷◌, ◌++◌, append_assoc,
  map, some, text_eq_refl, ok, ltb, ◌==◌, length, length-append, length-map, arith, Bytes,
}
use curator_skill_registry.Merkle.{Frontier}
use curator_skill_registry.Merkle.Levels.{Represents, Represents-empty, Represents-tree, summary}
use curator_skill_registry.Signing.{Env}
use curator_skill_registry.Store.{LogRow, BoundaryRow, Database, genesis, boundary_at}
use curator_skill_registry.Store.Frontier.{save_frontier, save_from, load_frontier}
use curator_skill_registry.Store.Invariant.{
  IsConsistent, Numbered, leaves, leaf_of, boundary_of, boundaries_from,
}
use curator_skill_registry.Store.Invariant.Rows.{
  boundary_at-middle, length-leaves, leaves-append, Chain-digests,
}
use curator_skill_registry.Store.Invariant.Saved.{load_frontier-save_frontier, Represents-levels}
use curator_skill_registry.Store.Invariant.Anchors.{nodes_eq_refl}
use curator_skill_registry.Store.Verify.Rebuild.{
  leaf_pair, expected_of, recompute_prefix-IsConsistent,
}
use curator_skill_registry.Store.Verify.Walk.{report}
use curator_skill_registry.Store.Verify.Cache.{
  boundary_agrees, cached_error, expected_errors, size_error, size_errors, frontier_matches,
  length_matches, frontier_errors, boundary_cache_errors, bottom_len, max_seq,
  verify_boundary_cache,
}

cached_error_refl : (b : BoundaryRow) → cached_error (some b) (expected_of b) ≡ []
unfolding cached_error boundary_agrees report
cached_error_refl b =
    rw (text_eq_refl b.head, text_eq_refl b.merkle_root, text_eq_refl b.created_at)

frontier_matches_refl : (f : Frontier) → frontier_matches f f ≡ true
unfolding frontier_matches
frontier_matches_refl [] = refl
frontier_matches_refl (l ∷ f) =
    let same : (l.len == l.len) ≡ true = ground arith in
    rw (same, nodes_eq_refl l.tail, frontier_matches_refl f)

module _ {Doc : Type 0} where
  max_seq-Numbered :
      (n : ℕ) (r : LogRow Doc) (rs : List (LogRow Doc))
      → Numbered n (r ∷ rs)
      → max_seq (r ∷ rs) ≡ n + length rs
  unfolding max_seq
  max_seq-Numbered n r [] h = omega (arith, h.0)
  max_seq-Numbered n r (q ∷ rs) h =
      let later = max_seq-Numbered (suc n) q rs h.1 in
      let first : r.seq ≡ n = h.0 in omega (arith, later, first)

  max_seq-length : (log : List (LogRow Doc)) → Numbered 1 log → max_seq log ≡ length log
  max_seq-length [] h = unfold max_seq in refl
  max_seq-length (r ∷ rs) h = max_seq-Numbered 1 r rs h ∙ omega arith

module _ {Doc : Type 0} (env : Env Doc) where
  expected_errors-rest :
      (xs rs : List (LogRow Doc))
      → Numbered 1 (xs ++ rs)
      → expected_errors
          (length xs + 1)
          (map expected_of (boundaries_from env (leaves xs) rs))
          (boundaries_from env [] (xs ++ rs))
        ≡ []
  unfolding expected_errors
  expected_errors-rest xs [] h = refl
  expected_errors-rest xs (r ∷ rs) h =
      let at : boundary_at (length xs + 1) (boundaries_from env [] (xs ++ r ∷ rs))
          ≡ some (boundary_of env (leaves xs) r) =
        boundary_at-middle env 1 (length xs + 1) [] xs r rs h (omega arith) in
      let assoc : (xs ++ r ∷ []) ++ rs ≡ xs ++ r ∷ rs = append_assoc xs (r ∷ []) rs in
      let rest = expected_errors-rest (xs ++ r ∷ []) rs (subst (Numbered 1) (sym assoc) h) in
      let longer : length (xs ++ r ∷ []) ≡ length xs + 1 = length-append xs (r ∷ []) in
      let more = rw (assoc, longer, leaves-append xs (r ∷ [])) at rest in
      rw (at, cached_error_refl (boundary_of env (leaves xs) r)) more

  size_errors-boundaries :
      (n live : ℕ) (acc : List Bytes) (rs : List (LogRow Doc))
      → 1 ≤ n
      → n + length rs ≤ live + 1
      → Numbered n rs
      → size_errors live (boundaries_from env acc rs) ≡ []
  unfolding size_errors size_error
  size_errors-boundaries n live acc [] h k num = refl
  size_errors-boundaries n live acc (r ∷ rs) h k num =
      let low : ltb r.seq 1 ≡ false = ground (arith, num.0) in
      let high : ltb live r.seq ≡ false = ground (arith, num.0) in
      rw (low, high)
        (size_errors-boundaries (suc n) live (acc ++ leaf_of r ∷ []) rs (omega arith) (omega arith)
          num.1)

  bottom_len-saved :
      (log : List (LogRow Doc)) (f : Frontier)
      → Represents env.sha256 (leaves log) f
      → length_matches (bottom_len (save_frontier env f)) (length log) ≡ true
  unfolding length_matches bottom_len save_frontier save_from
  bottom_len-saved [] f rep = rw (Represents-empty env.sha256 rep refl) (ground arith)
  bottom_len-saved (r ∷ rs) f rep =
      let (g, above, e) = Represents-tree env.sha256 rep (omega arith) in
      let len : length (leaves (r ∷ rs)) ≡ length (r ∷ rs) = length-leaves (r ∷ rs) in
      rw e (unfold summary in ground (arith, len))

  -- Over consistent tables the comparison of the boundary cache and the frontier finds nothing.
  pub verify_boundary_cache-IsConsistent :
      (db : Database Doc) (v : IsConsistent env db)
      → length db.log ≤ 2 ^ 64
      → verify_boundary_cache env db (map leaf_pair db.log) ≡ ok []
  unfolding verify_boundary_cache boundary_cache_errors frontier_errors report
  verify_boundary_cache-IsConsistent db v h =
      let loaded : load_frontier env db.merkle_frontier ≡ ok v.frontier = rw v.saved (
        load_frontier-save_frontier env v.frontier
          (Represents-levels env v.represents (Chain-digests env genesis db.log v.chain))) in
      let expected : expected_errors 1 (map expected_of db.boundaries) db.boundaries ≡ [] =
        rw v.boundaries (expected_errors-rest [] db.log v.numbered) in
      let live = max_seq-length db.log v.numbered in
      let sizes : size_errors (length db.log) db.boundaries ≡ [] = rw v.boundaries (
        size_errors-boundaries 1 (length db.log) [] db.log (omega arith) (omega arith)
          v.numbered) in
      let bottom : length_matches (bottom_len db.merkle_frontier) (length db.log) ≡ true =
        rw v.saved (bottom_len-saved db.log v.frontier v.represents) in
      let walked : length (map leaf_pair db.log) ≡ length db.log = length-map leaf_pair db.log in
      let same : (length db.log == length db.log) ≡ true = ground arith in
      rw (
        recompute_prefix-IsConsistent env db v h,
        loaded,
        walked,
        live,
        expected,
        sizes,
        bottom,
        same,
        frontier_matches_refl v.frontier,
      )
