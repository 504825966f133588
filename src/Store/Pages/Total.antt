-- ===== src/Store/Pages/Total.antt =====
-- Pages of consistent tables: they are always served, and tell whether more entries follow.
use curator_skill_registry.Base.{
  append-nil, sym, ℕ, zero, suc, ◌+◌, ◌-◌, ◌≤◌, ◌≡◌, refl, ◌∙◌, List, [], ◌∷◌, none, some, ltb, leb,
  ◌&&◌, ok, length, take, drop, arith, Bool-cases, inl, inr, All, Text,
}
use curator_skill_registry.Json.{Fields, obj}
use curator_skill_registry.Signing.{Env}
use curator_skill_registry.Store.{LogRow, LogEntry, Database, SnapshotBoundary, genesis}
use curator_skill_registry.Store.Boundary.{snapshot_boundary, page_boundary}
use curator_skill_registry.Store.Invariant.{IsConsistent, Chain}
use curator_skill_registry.Store.Invariant.Snapshots.{
  snapshot_boundary-available, snapshot_boundary-bounded, snapshot_boundary-log_size,
}
use curator_skill_registry.Store.Pages.{
  select, entry_from_row, entries_from_rows, page_rows, log_page,
}
use curator_skill_registry.Store.Pages.Stable.{length-select}

module _ {A : Type 0} where
  length-drop : (n : ℕ) (xs : List A) → length (drop n xs) ≡ length xs - n
  length-drop zero xs = omega arith
  length-drop (suc n) [] = omega arith
  length-drop (suc n) (x ∷ xs) = omega (arith, length-drop n xs)

  length-take-suc : (n : ℕ) (xs : List A) → ltb n (length (take (suc n) xs)) ≡ ltb n (length xs)
  length-take-suc n [] = refl
  length-take-suc zero (x ∷ xs) = ground arith
  length-take-suc (suc n) (x ∷ xs) = ground (arith, length-take-suc n xs)

  length-take_more : (n : ℕ) (xs : List A) → ltb n (length (take (n + 1) xs)) ≡ ltb n (length xs)
  length-take_more n xs = let e : n + 1 ≡ suc n = omega arith in rw e (length-take-suc n xs)

  All-take : (P : A → Type 0) (n : ℕ) (xs : List A) → All P xs → All P (take n xs)
  All-take P zero xs h = tt
  All-take P (suc n) [] h = tt
  All-take P (suc n) (x ∷ xs) h = (h.0, All-take P n xs h.1)

  All-drop : (P : A → Type 0) (n : ℕ) (xs : List A) → All P xs → All P (drop n xs)
  All-drop P zero xs h = h
  All-drop P (suc n) [] h = tt
  All-drop P (suc n) (x ∷ xs) h = All-drop P n xs h.1

module _ {Doc : Type 0} (env : Env Doc) where
  -- The row stores a dict.
  record Stored (r : LogRow Doc) : Type 0 where
    body : Fields
    stored : env.loads r.record_json ≡ some (obj body)

  Chain-Stored : (prev : Text) (rs : List (LogRow Doc)) → Chain env prev rs → All Stored rs
  Chain-Stored prev [] c = tt
  Chain-Stored prev (r ∷ rs) c =
      (record { body = c.0.body; stored = c.0.stored }, Chain-Stored r.entry_hash rs c.1)

  All-select :
      (since cap : ℕ) (rs : List (LogRow Doc)) → All Stored rs → All Stored (select since cap rs)
  unfolding select
  All-select since cap [] h = tt
  All-select since cap (r ∷ rs) h = elim (Bool-cases (ltb since r.seq && leb r.seq cap)) [
    | inl k ↦ rw (select, k) (h.0, All-select since cap rs h.1)
    | inr k ↦ rw (select, k) (All-select since cap rs h.1)
  ]

  entries_from_rows-Stored :
      (rs : List (LogRow Doc))
      → All Stored rs
      → (entries : List LogEntry) × (entries_from_rows env rs ≡ ok entries)
  unfolding entries_from_rows entry_from_row
  entries_from_rows-Stored [] h = ([], refl)
  entries_from_rows-Stored (r ∷ rs) h =
      let (entries, e) = entries_from_rows-Stored rs h.1 in
      let entry : LogEntry = record {
        seq = r.seq;
        entry_hash = r.entry_hash;
        prev_hash = r.prev_hash;
        record_fields = h.0.body;
      } in
      (entry ∷ entries, rw (entry_from_row, h.0.stored, e))

  -- On consistent tables a page that carries a served boundary, from a number up to its size, is
  -- served whatever its limit and offset, and its flag tells exactly whether entries of the
  -- boundary follow behind the page.
  pub log_page-total :
      (db : Database Doc) (since limit offset n : ℕ) (b : SnapshotBoundary)
      → IsConsistent env db
      → snapshot_boundary db (some n) ≡ ok b
      → since ≤ n
      → (entries : List LogEntry) × (log_page env db since limit offset none (some b)
          ≡ ok (entries, ltb (since + offset + limit) n))
  unfolding log_page page_rows
  log_page-total db since limit offset n b v h below =
      let at : page_boundary db (some b) none ≡ ok b =
        (snapshot_boundary-available env db db [] n b v v (sym (append-nil db.log)) refl h).1 in
      let size : b.log_size ≡ n = snapshot_boundary-log_size env db n v h in
      let small : n ≤ length db.log = snapshot_boundary-bounded env db n v h in
      let rows = select since b.log_size db.log in
      let count : since + length rows ≡ b.log_size =
        length-select 1 since b.log_size db.log v.numbered (omega arith)
          (omega (arith, below, size)) (omega (arith, small, size)) in
      let good =
        All-drop Stored offset rows
          (All-select since b.log_size db.log (Chain-Stored genesis db.log v.chain)) in
      let (entries, read) =
        entries_from_rows-Stored (take limit (take (limit + 1) (drop offset rows)))
          (All-take Stored limit _ (All-take Stored (limit + 1) _ good)) in
      let flag : ltb limit (length (take (limit + 1) (drop offset rows)))
          ≡ ltb (since + offset + limit) n =
        length-take_more limit (drop offset rows)
        ∙ ground (arith, length-drop offset rows, count, size) in
      (entries, rw (at, read, flag))
