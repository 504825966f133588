-- ===== src/Store/Invariant/Snapshots.antt =====
-- The boundaries that consistent tables serve: each is that of its log prefix, and it stays the
-- same while the log grows.
use curator_skill_registry.Base.{
  ℕ, suc, ◌+◌, ◌≤◌, ◌<◌, ◌≡◌, refl, sym, ap, ◌∙◌, subst, true, false, List, [], ◌∷◌, ◌++◌,
  append_assoc, Option, none, some, Text, text_eq_refl, hex, ◌==◌, ltb, inl, inr, ok, ok-injective,
  Bool-cases, length, length-append, arith,
}
use curator_skill_registry.Merkle.{merkle_root}
use curator_skill_registry.Signing.{Env}
use curator_skill_registry.Store.{LogRow, Database, SnapshotBoundary, boundary_at, row_at}
use curator_skill_registry.Store.Boundary.{
  head_seq, selected_seq, anchor_matches, empty_boundary, cached_boundary, snapshot_boundary,
  boundary_eq, boundary_available, page_boundary, or_mismatch,
}
use curator_skill_registry.Store.Invariant.{IsConsistent, Numbered, leaves, boundary_of}
use curator_skill_registry.Store.Invariant.Rows.{
  leaves-append, row_at-middle, boundary_at-middle, head_seq-Numbered,
}

-- A list has an element at each place below its length.
split_at :
    {A : Type 0} (n : ℕ) (xs : List A)
    → n < length xs
    → (ys : List A) × (a : A) × (zs : List A) × (xs ≡ ys ++ a ∷ zs) × (length ys ≡ n)
split_at n [] h = absurd (omega (arith, h))
split_at ℕ.zero (x ∷ xs) h = ([], x, xs, refl, refl)
split_at (suc n) (x ∷ xs) h =
    let (ys, a, zs, e, k) = split_at n xs (omega (arith, h)) in
    (x ∷ ys, a, zs, ap (◌∷◌ x) e, ap suc k)

boundary_eq_refl : (b : SnapshotBoundary) → boundary_eq b b ≡ true
unfolding boundary_eq
boundary_eq_refl b =
    rw (text_eq_refl b.head, text_eq_refl b.merkle_root, text_eq_refl b.created_at) (ground arith)

module _ {Doc : Type 0} where
  first_row :
      (xs : List (LogRow Doc)) (r : LogRow Doc) (ys : List (LogRow Doc))
      → Numbered 1 (xs ++ r ∷ ys)
      → (q : LogRow Doc) × (row_at 1 (xs ++ r ∷ ys) ≡ some q)
  unfolding row_at
  first_row [] r ys h = (r, ground arith)
  first_row (x ∷ xs) r ys h = (x, ground arith)

module _ {Doc : Type 0} (env : Env Doc) where
  -- The boundary of the prefix that ends with the row `r`, behind the rows `xs`.
  abbrev pub prefix_boundary : List (LogRow Doc) → LogRow Doc → SnapshotBoundary
  prefix_boundary xs r = record {
    version = length xs + 1;
    log_size = length xs + 1;
    head = r.entry_hash;
    merkle_root = hex (merkle_root env.sha256 (leaves (xs ++ r ∷ [])));
    created_at = r.created_at;
  }

  -- In consistent tables the boundary at the number of a log row is served, with that number as
  -- version and size, the row's hash and time, and the Merkle root of all leaves up to the row.
  pub snapshot_boundary-prefix :
      (db : Database Doc) (xs : List (LogRow Doc)) (r : LogRow Doc) (ys : List (LogRow Doc))
      → IsConsistent env db
      → db.log ≡ xs ++ r ∷ ys
      → snapshot_boundary db (some (length xs + 1)) ≡ ok (prefix_boundary xs r)
  unfolding snapshot_boundary selected_seq cached_boundary anchor_matches
  snapshot_boundary-prefix db xs r ys v e =
      let num : Numbered 1 (xs ++ r ∷ ys) = subst (Numbered 1) e v.numbered in
      let size : length db.log ≡ length xs + suc (length ys) = rw e (length-append xs (r ∷ ys)) in
      let below : ltb (head_seq db.log) (length xs + 1) ≡ false =
        ground (arith, head_seq-Numbered db.log v.numbered) in
      let positive : (length xs + 1 == 0) ≡ false = ground arith in
      let found : boundary_at (length xs + 1) db.boundaries ≡ some (boundary_of env (leaves xs) r) =
        rw (v.boundaries, e)
          (boundary_at-middle env 1 (length xs + 1) [] xs r ys num (omega arith)) in
      let row : row_at (length xs + 1) db.log ≡ some r =
        let at : length xs + 1 ≡ 1 + length xs = omega arith in
        rw (e, at) (row_at-middle 1 xs r ys num) in
      let (q, one) = first_row xs r ys num in
      let start : row_at 1 db.log ≡ some q = rw e one in
      rw (
        below,
        positive,
        found,
        row,
        text_eq_refl r.entry_hash,
        text_eq_refl r.created_at,
        start,
        leaves-append xs (r ∷ []),
      )

  -- Below the head of the log, a grown log has the same boundary.
  pub snapshot_boundary-grown :
      (db db' : Database Doc) (new : List (LogRow Doc)) (n : ℕ)
      → IsConsistent env db
      → IsConsistent env db'
      → db'.log ≡ db.log ++ new
      → db'.created_at ≡ db.created_at
      → n ≤ length db.log
      → snapshot_boundary db' (some n) ≡ snapshot_boundary db (some n)
  unfolding snapshot_boundary selected_seq
  snapshot_boundary-grown db db' new ℕ.zero v v' e c h = rw c (ground arith)
  snapshot_boundary-grown db db' new (suc n) v v' e c h =
      let (xs, r, ys, k, l) = split_at n db.log (omega (arith, h)) in
      let at : suc n ≡ length xs + 1 = omega (arith, l) in
      let grown : db'.log ≡ xs ++ r ∷ (ys ++ new) =
        e ∙ ap (λ t. t ++ new) k ∙ append_assoc xs (r ∷ ys) new in
      rw (at, snapshot_boundary-prefix db xs r ys v k)
        (snapshot_boundary-prefix db' xs r (ys ++ new) v' grown)

  -- The live boundary is the one at the head of the log.
  pub snapshot_boundary-live :
      (db : Database Doc)
      → IsConsistent env db
      → snapshot_boundary db none ≡ snapshot_boundary db (some (length db.log))
  unfolding snapshot_boundary selected_seq
  snapshot_boundary-live db v = rw (head_seq-Numbered db.log v.numbered)

  pub snapshot_boundary-bounded :
      (db : Database Doc) (n : ℕ) {b : SnapshotBoundary}
      → IsConsistent env db
      → snapshot_boundary db (some n) ≡ ok b
      → n ≤ length db.log
  unfolding snapshot_boundary selected_seq
  snapshot_boundary-bounded db n v h = elim (Bool-cases (ltb (head_seq db.log) n)) [
    | inl e ↦ let refused = rw e at h in cc
    | inr e ↦ ground (arith, head_seq-Numbered db.log v.numbered)
  ]

  empty_boundary-log_size :
      (created : Option Text) {b : SnapshotBoundary}
      → empty_boundary created ≡ ok b
      → b.log_size ≡ 0
  unfolding empty_boundary
  empty_boundary-log_size none h = cc
  empty_boundary-log_size (some t) h = sym (ap (λ b. b.log_size) (ok-injective h))

  pub snapshot_boundary-log_size :
      (db : Database Doc) (n : ℕ) {b : SnapshotBoundary}
      → IsConsistent env db
      → snapshot_boundary db (some n) ≡ ok b
      → b.log_size ≡ n
  unfolding snapshot_boundary selected_seq
  snapshot_boundary-log_size db ℕ.zero v h =
      empty_boundary-log_size db.created_at
        (let no : ltb (head_seq db.log) 0 ≡ false = ground arith in rw no at h)
  snapshot_boundary-log_size db (suc n) v h =
      let (xs, r, ys, k, l) =
        split_at n db.log (omega (arith, snapshot_boundary-bounded db (suc n) v h)) in
      let at : suc n ≡ length xs + 1 = omega (arith, l) in
      let served = snapshot_boundary-prefix db xs r ys v k in
      sym (ap (λ b. b.log_size) (ok-injective (sym served ∙ rw at at h))) ∙ sym at

  -- A boundary that was served stays available, and a page that carries it is evaluated at it.
  pub snapshot_boundary-available :
      (db db' : Database Doc) (new : List (LogRow Doc)) (n : ℕ) (b : SnapshotBoundary)
      → IsConsistent env db
      → IsConsistent env db'
      → db'.log ≡ db.log ++ new
      → db'.created_at ≡ db.created_at
      → snapshot_boundary db (some n) ≡ ok b
      → (boundary_available db' b ≡ true) × (page_boundary db' (some b) none ≡ ok b)
  unfolding boundary_available page_boundary or_mismatch
  snapshot_boundary-available db db' new n b v v' e c h =
      let size = snapshot_boundary-log_size db n v h in
      let again : snapshot_boundary db' (some b.log_size) ≡ ok b =
        ap (λ k. snapshot_boundary db' (some k)) size
        ∙ snapshot_boundary-grown db db' new n v v' e c (snapshot_boundary-bounded db n v h)
        ∙ h in
      (
        rw (boundary_available, again) (boundary_eq_refl b),
        rw (page_boundary, again, or_mismatch, boundary_eq_refl b),
      )

  empty_boundary-some :
      (created : Option Text) {t : Text}
      → created ≡ some t
      → (b : SnapshotBoundary) × (empty_boundary created ≡ ok b)
        × (b.version ≡ 0)
        × (b.log_size ≡ 0)
  unfolding empty_boundary
  empty_boundary-some none e = cc
  empty_boundary-some (some t) e = (_, refl, refl, refl)

  -- Consistent tables have a boundary at every size up to the log's.
  pub snapshot_boundary-at :
      (db : Database Doc) (n : ℕ)
      → IsConsistent env db
      → n ≤ length db.log
      → (b : SnapshotBoundary) × (snapshot_boundary db (some n) ≡ ok b)
        × (b.version ≡ n)
        × (b.log_size ≡ n)
  unfolding snapshot_boundary selected_seq
  snapshot_boundary-at db ℕ.zero v h =
      let (b, e, k, l) = empty_boundary-some db.created_at v.created_at in
      let no : ltb (head_seq db.log) 0 ≡ false = ground arith in (b, rw no e, k, l)
  snapshot_boundary-at db (suc n) v h =
      let (xs, r, ys, k, l) = split_at n db.log (omega (arith, h)) in
      let at : suc n ≡ length xs + 1 = omega (arith, l) in
      (prefix_boundary xs r, rw at (snapshot_boundary-prefix db xs r ys v k), sym at, sym at)
