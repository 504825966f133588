-- ===== src/Store/Invariant/Anchors.antt =====
-- The anchors that `_validate_append_anchors_locked` checks hold in a consistent database.
use curator_skill_registry.Base.{
  subst, ◌+◌, ◌-◌, ◌≤◌, ◌≡◌, refl, sym, ap, ◌∙◌, List, [], ◌∷◌, ◌++◌, some, Text, text_eq_refl,
  Bytes, ok, length, length-append, arith, ◌==◌, ltb, leb, ◌&&◌, not, true, false, inl, inr,
  append_assoc,
}
use curator_skill_registry.Merkle.{Frontier, last, last_two, next_level}
use curator_skill_registry.Merkle.Levels.{
  Represents-empty, Represents-tree, Above, top, below, Represents, summary, last-last_two,
  last_two-snoc,
}
use curator_skill_registry.Merkle.Growth.{last_pair-last_two}
use curator_skill_registry.Merkle.Root.{frontier_root-Above}
use curator_skill_registry.Signing.{Env}
use curator_skill_registry.Store.{LogRow, Database, genesis, head_row, boundary_at}
use curator_skill_registry.Store.Boundary.{head_seq}
use curator_skill_registry.Store.Append.{
  head_hash, nodes_eq, unhex, of_frontier, validate_bottom, validate_links, validate_against,
  validate_committed, validate_append_anchors, bottom_length, bottom_tail,
}
use curator_skill_registry.Store.Invariant.{
  leaf_of, leaves, Numbered, RowIsValid, Chain, boundary_of, boundaries_from, IsConsistent,
}
use curator_skill_registry.Store.Invariant.Rows.{
  leaves-append, length-leaves, log-cases, head_seq-Numbered, head_hash-last, row_at-middle,
  boundary_at-middle, leaf_of-RowIsValid, Chain-middle,
}

pub nodes_eq_refl : (xs : List Bytes) → nodes_eq xs xs ≡ true
unfolding nodes_eq
nodes_eq_refl [] = refl
nodes_eq_refl (x ∷ xs) = rw (text_eq_refl x, nodes_eq_refl xs)

length-last_two_pair : (bs : List Bytes) → 2 ≤ length bs → length (last_two bs) ≡ 2
unfolding last_two
length-last_two_pair [] h = absurd (omega arith)
length-last_two_pair (x ∷ []) h = absurd (omega arith)
length-last_two_pair (x ∷ y ∷ []) h = refl
length-last_two_pair (x ∷ y ∷ z ∷ r) h = length-last_two_pair (y ∷ z ∷ r) (omega arith)

last-some : (bs : List Bytes) → 1 ≤ length bs → (c : Bytes) × (last bs ≡ ok c)
unfolding last
last-some [] h = absurd (omega arith)
last-some (x ∷ []) h = (x, refl)
last-some (x ∷ y ∷ r) h = last-some (y ∷ r) (omega arith)

nonempty-next_level :
    (sha256 : Bytes → Bytes) (bs : List Bytes) → 1 ≤ length bs → 1 ≤ length (next_level sha256 bs)
unfolding next_level
nonempty-next_level sha256 [] h = absurd (omega arith)
nonempty-next_level sha256 (x ∷ []) h = omega arith
nonempty-next_level sha256 (x ∷ y ∷ r) h = omega arith

module _ {Doc : Type 0} (env : Env Doc) where
  -- Every level of a tree's frontier ends with the hash of the level below.
  validate_links-Above :
      {bs : List Bytes} {f : Frontier}
      → Above env.sha256 bs f
      → validate_links env (summary bs ∷ f) ≡ ok tt
  unfolding validate_links summary of_frontier
  validate_links-Above (top bs h) = refl
  validate_links-Above (below bs h above) =
      let (c, e) =
        last-some (next_level env.sha256 bs) (nonempty-next_level env.sha256 bs (omega arith)) in
      let complete : not (leb 2 (length bs) && ltb (length (last_two bs)) 2) ≡ true =
        ground (arith, length-last_two_pair bs h) in
      rw
        (
          complete,
          last_pair-last_two env.sha256 bs h,
          last-last_two (next_level env.sha256 bs),
          e,
          text_eq_refl c,
        )
        (validate_links-Above above)

  unhex-RowIsValid :
      (r : LogRow Doc) {prev : Text} → RowIsValid env prev r → unhex r.entry_hash ≡ ok (leaf_of r)
  unfolding unhex
  unhex-RowIsValid r v = rw ((leaf_of-RowIsValid env r v).1, unhex)

  -- The bottom tail is the last committed leaf, or the last two.
  validate_bottom-one :
      (r : LogRow Doc) {prev : Text}
      → RowIsValid env prev r
      → validate_bottom (r ∷ []) 1 r.entry_hash (last_two (leaves (r ∷ []))) ≡ ok tt
  unfolding validate_bottom last_two
  validate_bottom-one r v = rw (unhex-RowIsValid r v, nodes_eq_refl (leaf_of r ∷ []))

  validate_bottom-more :
      (m : List (LogRow Doc)) (q r : LogRow Doc) {prev prev' : Text}
      → Numbered 1 (m ++ q ∷ r ∷ [])
      → RowIsValid env prev q
      → RowIsValid env prev' r
      → validate_bottom (m ++ q ∷ r ∷ []) (length m + 2) r.entry_hash (leaf_of q ∷ leaf_of r ∷ [])
        ≡ ok tt
  unfolding validate_bottom
  validate_bottom-more m q r h v w =
      let many : (length m + 2 == 1) ≡ false = ground arith in
      let number : length m + 2 - 1 ≡ 1 + length m = omega arith in
      rw (
        many,
        number,
        row_at-middle 1 m q (r ∷ []) h,
        unhex-RowIsValid q v,
        unhex-RowIsValid r w,
        nodes_eq_refl (leaf_of q ∷ leaf_of r ∷ []),
      )

  abbrev BottomHolds : List (LogRow Doc) → LogRow Doc → Type 0
  BottomHolds log r = validate_bottom log (length log) r.entry_hash (last_two (leaves log)) ≡ ok tt

  validate_bottom-two :
      (p : List (LogRow Doc)) (q r : LogRow Doc)
      → Numbered 1 (p ++ q ∷ r ∷ [])
      → Chain env genesis (p ++ q ∷ r ∷ [])
      → BottomHolds (p ++ q ∷ r ∷ []) r
  validate_bottom-two p q r h c =
      let (_, v) = Chain-middle env genesis p q (r ∷ []) c in
      let whole : (p ++ q ∷ []) ++ r ∷ [] ≡ p ++ q ∷ r ∷ [] = append_assoc p (q ∷ []) (r ∷ []) in
      let (_, w) = Chain-middle env genesis (p ++ q ∷ []) r [] (rw whole c) in
      let size : length (p ++ q ∷ r ∷ []) ≡ length p + 2 =
        omega (arith, length-append p (q ∷ r ∷ [])) in
      rw (size, leaves-append p (q ∷ r ∷ []), last_two-snoc (leaves p) (leaf_of q) (leaf_of r))
        (validate_bottom-more p q r h v w)

  validate_bottom-last :
      (m : List (LogRow Doc)) (r : LogRow Doc)
      → Numbered 1 (m ++ r ∷ [])
      → Chain env genesis (m ++ r ∷ [])
      → BottomHolds (m ++ r ∷ []) r
  validate_bottom-last m r h c = elim (log-cases m) [
    | inl e ↦
        let only : m ++ r ∷ [] ≡ r ∷ [] = rw e in
        let c' : Chain env genesis (r ∷ []) = subst (Chain env genesis) only c in
        subst (λ l. BottomHolds l r) (sym only) (validate_bottom-one r (c'.0))
    | inr (p, q, e) ↦
        let whole : m ++ r ∷ [] ≡ p ++ q ∷ r ∷ [] = rw e (append_assoc p (q ∷ []) (r ∷ [])) in
        subst (λ l. BottomHolds l r) (sym whole)
          (validate_bottom-two p q r (subst (Numbered 1) whole h)
            (subst (Chain env genesis) whole c))
  ]

  validate_against-tree :
      (m : List (LogRow Doc)) (r : LogRow Doc) {g : Frontier}
      → Numbered 1 (m ++ r ∷ [])
      → Chain env genesis (m ++ r ∷ [])
      → Above env.sha256 (leaves (m ++ r ∷ [])) g
      → validate_against env
          (m ++ r ∷ [])
          (length (m ++ r ∷ []))
          r.entry_hash
          (summary (leaves (m ++ r ∷ [])) ∷ g)
          (boundary_of env (leaves m) r)
        ≡ ok tt
  unfolding validate_against of_frontier
  validate_against-tree m r {g} h c above =
      let bottom : bottom_tail (summary (leaves (m ++ r ∷ [])) ∷ g)
          ≡ last_two (leaves (m ++ r ∷ [])) =
        unfold bottom_tail summary in refl in
      rw (
        text_eq_refl r.entry_hash,
        bottom,
        validate_bottom-last m r h c,
        validate_links-Above above,
        frontier_root-Above env.sha256 above,
        leaves-append m (r ∷ []),
        text_eq_refl,
      )

  -- The anchors of an empty log, and of one with a last row.
  anchors-empty :
      (db : Database Doc)
      → db.log ≡ []
      → validate_append_anchors env db (head_seq db.log) (head_hash db.log) [] ≡ ok tt
  unfolding validate_append_anchors validate_committed bottom_length head_seq head_row
  anchors-empty db e = rw e

  anchors-last :
      (db : Database Doc) (m : List (LogRow Doc)) (r : LogRow Doc) {g : Frontier}
      → db.log ≡ m ++ r ∷ []
      → db.boundaries ≡ boundaries_from env [] db.log
      → Numbered 1 (m ++ r ∷ [])
      → Chain env genesis (m ++ r ∷ [])
      → Above env.sha256 (leaves (m ++ r ∷ [])) g
      → validate_append_anchors env db
          (length (m ++ r ∷ []))
          r.entry_hash
          (summary (leaves (m ++ r ∷ [])) ∷ g)
        ≡ ok tt
  unfolding validate_append_anchors validate_committed
  anchors-last db m r {g} e b h c above =
      let size : length (m ++ r ∷ []) ≡ 1 + length m = omega (arith, length-append m (r ∷ [])) in
      let bottom : (bottom_length (summary (leaves (m ++ r ∷ [])) ∷ g) == length (m ++ r ∷ []))
          ≡ true =
        unfold bottom_length summary in ground (arith, length-leaves (m ++ r ∷ [])) in
      let some_rows : (length (m ++ r ∷ []) == 0) ≡ false = ground arith in
      let found : boundary_at (length (m ++ r ∷ [])) db.boundaries
          ≡ some (boundary_of env (leaves m) r) =
        rw (b, e) (boundary_at-middle env 1 (length (m ++ r ∷ [])) [] m r [] h size) in
      rw (bottom, some_rows, found, e) (validate_against-tree m r h c above)

  -- On consistent tables, with the frontier that their frontier table holds, the anchor checks
  -- before an append pass.
  pub validate_append_anchors-IsConsistent :
      (db : Database Doc) (v : IsConsistent env db)
      → validate_append_anchors env db (head_seq db.log) (head_hash db.log) v.frontier ≡ ok tt
  validate_append_anchors-IsConsistent db v = elim (log-cases db.log) [
    | inl e ↦
        let none_saved : v.frontier ≡ [] = Represents-empty env.sha256 v.represents (rw e) in
        rw none_saved (anchors-empty db e)
    | inr (m, r, e) ↦
        let size : length (m ++ r ∷ []) ≡ 1 + length m = omega (arith, length-append m (r ∷ [])) in
        let rows : Represents env.sha256 (leaves (m ++ r ∷ [])) v.frontier =
          rw (← e) v.represents in
        let (g, above, saved) =
          Represents-tree env.sha256 rows (omega (arith, length-leaves (m ++ r ∷ []))) in
        let seq : head_seq db.log ≡ length (m ++ r ∷ []) =
          head_seq-Numbered db.log v.numbered ∙ ap length e in
        let hash : head_hash db.log ≡ r.entry_hash = rw e (head_hash-last m r) in
        rw (seq, hash, saved)
          (anchors-last db m r e v.boundaries (subst (Numbered 1) e v.numbered)
            (subst (Chain env genesis) e v.chain) above)
  ]
