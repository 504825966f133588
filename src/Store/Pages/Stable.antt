-- ===== src/Store/Pages/Stable.antt =====
-- Pages of the log at a carried boundary, while the log grows.
use curator_skill_registry.Base.{
  ℕ, suc, ◌+◌, ◌^◌, ◌≤◌, ◌<◌, ◌≡◌, refl, subst, true, false, List, [], ◌∷◌, ◌++◌, none, some, ltb,
  leb, ◌&&◌, ok, length, length-append, arith, Bool-cases, inl, inr,
}
use curator_skill_registry.Signing.{Env}
use curator_skill_registry.Store.{LogRow, SnapshotBoundary}
use curator_skill_registry.Store.Boundary.{snapshot_boundary}
use curator_skill_registry.Store.Transaction.{Store}
use curator_skill_registry.Store.Invariant.{IsConsistent, Numbered}
use curator_skill_registry.Store.Invariant.Snapshots.{
  snapshot_boundary-bounded, snapshot_boundary-log_size,
}
use curator_skill_registry.Store.History.{Reachable, here}
use curator_skill_registry.Store.History.Growth.{Reachable-Grows}
use curator_skill_registry.Store.History.Consistency.{
  Reachable-IsConsistent, Reachable-boundary_available,
}
use curator_skill_registry.Store.Pages.{select, log_page}

module _ {Doc : Type 0} where
  select-above :
      (n since cap : ℕ) (rs : List (LogRow Doc))
      → Numbered n rs
      → cap < n
      → select since cap rs ≡ []
  unfolding select
  select-above n since cap [] h k = refl
  select-above n since cap (r ∷ rs) h k = ground (arith, select-above (suc n) since cap rs)

  -- Rows above the cap are not selected.
  select-append :
      (n since cap : ℕ) (xs new : List (LogRow Doc))
      → Numbered n (xs ++ new)
      → cap < n + length xs
      → select since cap (xs ++ new) ≡ select since cap xs
  unfolding select
  select-append n since cap [] new h k = select-above n since cap new h (omega (arith, k))
  select-append n since cap (x ∷ xs) new h k =
      rw (select-append (suc n) since cap xs new h.1 (omega (arith, k)))

  length-select_from :
      (n since cap : ℕ) (rs : List (LogRow Doc))
      → Numbered n rs
      → since < n
      → n ≤ cap + 1
      → cap < n + length rs
      → n + length (select since cap rs) ≡ cap + 1
  unfolding select
  length-select_from n since cap [] h a b k = omega (arith, a, b, k)
  length-select_from n since cap (r ∷ rs) h a b k = elim (Bool-cases (leb n cap)) [
    | inl more ↦
        let rest =
          length-select_from (suc n) since cap rs h.1 (omega (arith, a)) (ground (arith, more))
            (omega (arith, k)) in
        let kept : (ltb since r.seq && leb r.seq cap) ≡ true = ground (arith, h, a, more) in
        rw kept (omega (arith, rest))
    | inr past ↦
        let dropped : (ltb since r.seq && leb r.seq cap) ≡ false = ground (arith, h, past) in
        rw (dropped, select-above (suc n) since cap rs h.1 (ground (arith, past)))
          (ground (arith, b, past))
  ]

  -- How many rows a numbered log has above `since` and up to the cap.
  pub length-select :
      (n since cap : ℕ) (rs : List (LogRow Doc))
      → Numbered n rs
      → n ≤ since + 1
      → since ≤ cap
      → cap < n + length rs
      → since + length (select since cap rs) ≡ cap
  unfolding select
  length-select n since cap [] h a b k = omega (arith, a, b, k)
  length-select n since cap (r ∷ rs) h a b k = elim (Bool-cases (leb n since)) [
    | inl before ↦
        let skipped : (ltb since r.seq && leb r.seq cap) ≡ false = ground (arith, h, before) in
        rw skipped
          (length-select (suc n) since cap rs h.1 (ground (arith, before)) b (omega (arith, k)))
    | inr after ↦
        let all_of =
          length-select_from n since cap (r ∷ rs) h (ground (arith, after))
            (ground (arith, after, a, b)) k in
        ground (arith, all_of, after, a)
  ]

module _ {Doc : Type 0} (env : Env Doc) where
  -- A page of the log that carries a boundary which a store with consistent tables served answers
  -- the same after any history of calls, as long as the log ends with at most 2^64 entries.
  pub log_page-Reachable :
      {s s' : Store Doc} (since limit offset n : ℕ) (b : SnapshotBoundary)
      → Reachable env s s'
      → IsConsistent env s.db
      → length s'.db.log ≤ 2 ^ 64
      → snapshot_boundary s.db (some n) ≡ ok b
      → log_page env s'.db since limit offset none (some b)
        ≡ log_page env s.db since limit offset none (some b)
  unfolding log_page
  log_page-Reachable {s} {s'} since limit offset n b r v bound h =
      let g = Reachable-Grows env r in
      let v' = Reachable-IsConsistent env r v bound in
      let later = (Reachable-boundary_available env n b r v bound h).1 in
      let shorter : length s.db.log ≤ length s'.db.log =
        rw g.log (omega (arith, length-append s.db.log g.added)) in
      let now =
        (Reachable-boundary_available env {s = s} {s' = s} n b here v
          (omega (arith, bound, shorter)) h).1 in
      let size : b.log_size ≡ n = snapshot_boundary-log_size env s.db n v h in
      let small : n ≤ length s.db.log = snapshot_boundary-bounded env s.db n v h in
      let rows : select since b.log_size s'.db.log ≡ select since b.log_size s.db.log = rw g.log (
        select-append 1 since b.log_size s.db.log g.added (subst (Numbered 1) g.log v'.numbered)
          (omega (arith, size, small))) in
      rw (later, now, rows)
