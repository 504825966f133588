-- ===== src/Bundle/Boundary.antt =====
-- The live boundary of a consistent store, and the entries that `log_entries` reads up to it.
use curator_skill_registry.Base.{
  ℕ, suc, ◌+◌, ◌≡◌, ◌≤◌, refl, sym, ap, ◌∙◌, true, List, [], ◌∷◌, ◌++◌, none, some, Bytes, hex,
  length, length-append, ltb, leb, ok, arith, inl, inr,
}
use curator_skill_registry.Merkle.{merkle_root}
use curator_skill_registry.Signing.{Env}
use curator_skill_registry.Store.{LogRow, LogEntry, Database, SnapshotBoundary, genesis, head_row}
use curator_skill_registry.Store.Boundary.{
  snapshot_boundary, selected_seq, head_seq, empty_boundary,
}
use curator_skill_registry.Store.Pages.{select, entries_from_rows, log_entries}
use curator_skill_registry.Store.Invariant.{IsConsistent, Numbered, leaf_of, leaves}
use curator_skill_registry.Store.Invariant.Rows.{
  chain_end, log-cases, chain_end-append, leaves-append,
}
use curator_skill_registry.Store.Invariant.Snapshots.{
  snapshot_boundary-live, snapshot_boundary-prefix, prefix_boundary,
}
use curator_skill_registry.Bundle.{bundle_root}

bundle_root-last :
    (sha256 : Bytes → Bytes) (xs : List Bytes) (x : Bytes)
    → bundle_root sha256 (xs ++ x ∷ []) ≡ hex (merkle_root sha256 (xs ++ x ∷ []))
unfolding bundle_root
bundle_root-last sha256 [] x = refl
bundle_root-last sha256 (y ∷ ys) x = refl

-- Every row of a numbered log is selected up to its length.
select-all :
    {Doc : Type 0} (n cap : ℕ) (rs : List (LogRow Doc))
    → Numbered (suc n) rs
    → suc n + length rs ≤ suc cap
    → select 0 cap rs ≡ rs
unfolding select
select-all n cap [] h b = refl
select-all n cap (r ∷ rs) h b =
    let above : ltb 0 r.seq ≡ true = ground (arith, h.0) in
    let below : leb r.seq cap ≡ true = ground (arith, h.0) in
    rw (above, below) (ap (◌∷◌ r) (select-all (suc n) cap rs h.1 (omega arith)))

module _ {Doc : Type 0} (env : Env Doc) where
  -- The live boundary of a consistent store describes its whole log.
  pub record Describes (b : SnapshotBoundary) (db : Database Doc) : Type 0 where
    pub live : snapshot_boundary db none ≡ ok b
    pub log_size : b.log_size ≡ length db.log
    pub head : b.head ≡ chain_end env genesis db.log
    pub root : b.merkle_root ≡ bundle_root env.sha256 (leaves db.log)

  live_boundary-empty :
      (db : Database Doc)
      → IsConsistent env db
      → db.log ≡ []
      → (b : SnapshotBoundary) × Describes b db
  unfolding snapshot_boundary selected_seq head_seq head_row empty_boundary bundle_root
  live_boundary-empty db v e = (
    record {
      version = 0;
      log_size = 0;
      head = genesis;
      merkle_root = genesis;
      created_at = v.created;
    },
    record { live = rw (e, v.created_at); log_size = rw e; head = rw e; root = rw e },
  )

  live_boundary-last :
      (db : Database Doc) (m : List (LogRow Doc)) (r : LogRow Doc)
      → IsConsistent env db
      → db.log ≡ m ++ r ∷ []
      → (b : SnapshotBoundary) × Describes b db
  live_boundary-last db m r v e =
      let size : length db.log ≡ length m + 1 = rw e (length-append m (r ∷ [])) in
      (
        prefix_boundary env m r,
        record {
          live =
              snapshot_boundary-live env db v
              ∙ ap (λ n. snapshot_boundary db (some n)) size
              ∙ snapshot_boundary-prefix env db m r [] v e;
          log_size = sym size;
          head = rw e (sym (chain_end-append env genesis m r));
          root =
              rw (e, leaves-append m (r ∷ []))
                (sym (bundle_root-last env.sha256 (leaves m) (leaf_of r)));
        },
      )

  pub live_boundary-log :
      (db : Database Doc) → IsConsistent env db → (b : SnapshotBoundary) × Describes b db
  live_boundary-log db v = elim (log-cases db.log) [
    | inl e ↦ live_boundary-empty db v e
    | inr (m, r, e) ↦ live_boundary-last db m r v e
  ]

  pub log_entries-rows :
      (db : Database Doc) {entries : List LogEntry}
      → IsConsistent env db
      → log_entries env db 0 none ≡ ok entries
      → entries_from_rows env db.log ≡ ok entries
  unfolding log_entries
  log_entries-rows db v h =
      let (b, d) = live_boundary-log db v in
      rw (d.live, d.log_size, select-all 0 (length db.log) db.log v.numbered (omega arith)) at h
