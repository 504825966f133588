-- ===== src/Store/Verify/Rebuild.antt =====
-- The boundaries and the frontier that are recomputed from a consistent log are the stored ones.
use curator_skill_registry.Base.{
  ◌+◌, ◌^◌, ◌≤◌, ◌≡◌, refl, sym, ap, ◌∙◌, List, [], ◌∷◌, ◌++◌, map, append-nil, append_assoc, Bytes,
  Text, ok, length, length-append, arith,
}
use curator_skill_registry.Merkle.{Frontier, next_level}
use curator_skill_registry.Merkle.Levels.{
  Represents, empty, tree, Above, top, below, summary, Represents-empty, Represents-tree,
  Above-nonempty,
}
use curator_skill_registry.Merkle.Append.{frontier_append-Represents}
use curator_skill_registry.Signing.{Env}
use curator_skill_registry.Store.{LogRow, BoundaryRow, Database, genesis}
use curator_skill_registry.Store.Append.{unhex}
use curator_skill_registry.Store.Invariant.{IsConsistent, Chain, leaves, leaf_of, boundaries_from}
use curator_skill_registry.Store.Invariant.Rows.{leaf_of-RowIsValid}
use curator_skill_registry.Store.Verify.{Expected, of_plain, recompute_from, recompute_prefix}

abbrev pub expected_of : BoundaryRow → Expected
expected_of b = record { head = b.head; merkle_root = b.merkle_root; created_at = b.created_at }

module _ {Doc : Type 0} where
  abbrev pub leaf_pair : LogRow Doc → Text × Text
  leaf_pair r = (r.entry_hash, r.created_at)

module _ (sha256 : Bytes → Bytes) where
  Above-unique : {xs : List Bytes} {f g : Frontier} → Above sha256 xs f → Above sha256 xs g → f ≡ g
  Above-unique (top xs h) (top _ k) = refl
  Above-unique (top xs h) (below _ k q) = absurd (omega arith)
  Above-unique (below xs h p) (top _ k) = absurd (omega arith)
  Above-unique (below xs h p) (below _ k q) =
      ap (λ f. summary (next_level sha256 xs) ∷ f) (Above-unique p q)

  -- Leaves have one frontier.
  Represents-unique :
      {xs : List Bytes} {f g : Frontier} → Represents sha256 xs f → Represents sha256 xs g → f ≡ g
  Represents-unique empty q = sym (Represents-empty sha256 q refl)
  Represents-unique (tree xs p) q =
      let (h, above, e) = Represents-tree sha256 q (Above-nonempty sha256 p) in
      ap (λ k. summary xs ∷ k) (Above-unique p above) ∙ sym e

module _ {Doc : Type 0} (env : Env Doc) where
  recompute_from-Represents :
      (prev : Text) (acc : List Bytes) (f : Frontier) (rs : List (LogRow Doc))
      → Represents env.sha256 acc f
      → Chain env prev rs
      → length acc + length rs ≤ 2 ^ 64
      → (final : Frontier) × (recompute_from env.sha256 f (map leaf_pair rs)
          ≡ ok (map expected_of (boundaries_from env acc rs), final))
        × Represents env.sha256 (acc ++ leaves rs) final
  unfolding recompute_from of_plain
  recompute_from-Represents prev acc f [] rep c h = (f, refl, rw (append-nil acc) rep)
  recompute_from-Represents prev acc f (r ∷ rs) rep c h =
      let leaf = leaf_of-RowIsValid env r c.0 in
      let read : unhex r.entry_hash ≡ ok (leaf_of r) = unfold unhex in rw (leaf.1, unhex) in
      let (grown, run, rep') =
        frontier_append-Represents env.sha256 (leaf_of r) rep (omega (arith, h)) in
      let (final, more, rep'') =
        recompute_from-Represents r.entry_hash (acc ++ leaf_of r ∷ []) grown rs rep' c.1
          (omega (arith, h, length-append acc (leaf_of r ∷ []))) in
      (final, rw (read, run, more), rw (← append_assoc acc (leaf_of r ∷ []) (leaves rs)) rep'')

  -- From the hashes and times of a consistent log of at most 2^64 entries `_recompute_prefix`
  -- computes, without an error, the heads, roots and times of the stored boundaries and the
  -- frontier of the frontier table.
  pub recompute_prefix-IsConsistent :
      (db : Database Doc) (v : IsConsistent env db)
      → length db.log ≤ 2 ^ 64
      → recompute_prefix env.sha256 (map leaf_pair db.log)
        ≡ ok (map expected_of db.boundaries, v.frontier)
  unfolding recompute_prefix
  recompute_prefix-IsConsistent db v h =
      let (final, run, rep) =
        recompute_from-Represents genesis [] [] db.log empty v.chain (omega (arith, h)) in
      let same : final ≡ v.frontier = Represents-unique env.sha256 rep v.represents in
      run ∙ rw (v.boundaries, same)
