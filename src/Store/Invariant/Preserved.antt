-- ===== src/Store/Invariant/Preserved.antt =====
-- `_append_locked` on a consistent database: it never refuses a well-formed record, appends exactly
-- one row that extends the chain, and leaves a consistent database.
use curator_skill_registry.Base.{
  subst, ◌+◌, ◌^◌, ◌<◌, ◌≡◌, refl, List, [], ◌∷◌, ◌++◌, Text, Bytes, hex-ascii, ok, length,
  length-append, arith, ◌==◌, ltb, true, false, all, inl, inr, max,
}
use curator_skill_registry.Json.{Fields, obj}
use curator_skill_registry.Merkle.{Frontier, merkle_root}
use curator_skill_registry.Merkle.Levels.{Represents}
use curator_skill_registry.Merkle.Append.{frontier_append-Represents}
use curator_skill_registry.Protocol.{valid_hash_version}
use curator_skill_registry.Signing.{Env, canonical_bytes}
use curator_skill_registry.Store.{LogRow, LogEntry, Database, genesis, head_row}
use curator_skill_registry.Store.Boundary.{head_seq}
use curator_skill_registry.Store.Frontier.{load_frontier}
use curator_skill_registry.Store.Append.{
  Columns, require_columns, head_hash, chain_hash, ascii, unhex, of_frontier, of_canonical,
  latching, has_boundary, new_row, write_entry, insert_entry, append_locked,
}
use curator_skill_registry.Store.Invariant.{leaf_of, leaves, RowIsValid, Chain, IsConsistent}
use curator_skill_registry.Store.Invariant.Rows.{
  leaves-append, length-leaves, log-cases, head_seq-Numbered, head_hash-last, leaf_of-RowIsValid,
  Chain-middle, Chain-append, Chain-digests, Numbered-append, chain_end, chain_end-append,
  boundary_at-above, boundaries_from-append,
}
use curator_skill_registry.Store.Invariant.Reading.{require_columns-Names}
use curator_skill_registry.Store.Invariant.Saved.{load_frontier-save_frontier, Represents-levels}
use curator_skill_registry.Store.Invariant.Anchors.{validate_append_anchors-IsConsistent}

module _ {Doc : Type 0} (env : Env Doc) where
  chain_hash-ascii : (prev : Text) (b : Bytes) → all (λ c. ltb c 128) (chain_hash env prev b) ≡ true
  unfolding chain_hash
  chain_hash-ascii prev b = hex-ascii _ (env.sha256-IsDigest (prev ++ b)).bytes

  pub RowIsValid-ascii :
      (r : LogRow Doc) {prev : Text}
      → RowIsValid env prev r
      → all (λ c. ltb c 128) r.entry_hash ≡ true
  RowIsValid-ascii r {prev} v = rw v.entry_hash (chain_hash-ascii prev v.record_bytes)

  -- The head hash is a text that `encode("ascii")` takes.
  ascii-head_hash :
      (log : List (LogRow Doc)) → Chain env genesis log → ascii (head_hash log) ≡ ok (head_hash log)
  unfolding ascii
  ascii-head_hash log c = elim (log-cases log) [
    | inl e ↦ rw e (unfold head_hash head_row in refl)
    | inr (m, r, e) ↦
        let (_, v) = Chain-middle env genesis m r [] (subst (Chain env genesis) e c) in
        let hash : head_hash log ≡ r.entry_hash = rw e (head_hash-last m r) in
        rw (hash, RowIsValid-ascii r v)
  ]

  chain_end-head_hash : (log : List (LogRow Doc)) → chain_end env genesis log ≡ head_hash log
  chain_end-head_hash log = elim (log-cases log) [
    | inl e ↦ rw e (unfold head_hash head_row in refl)
    | inr (m, r, e) ↦ rw (e, head_hash-last m r) (chain_end-append env genesis m r)
  ]

  module _ (db : Database Doc) (v : IsConsistent env db) (body : Fields) (record_bytes : Bytes)
      (columns : Columns) (created_at : Text) (named : require_columns body ≡ ok columns)
      (canonical : canonical_bytes env body ≡ ok record_bytes) where
    -- The row that the append writes.
    abbrev pub next_row : LogRow Doc
    next_row =
        new_row env (length db.log + 1) (head_hash db.log)
          (chain_hash env (head_hash db.log) record_bytes) columns body created_at

    next_row-RowIsValid : RowIsValid env (head_hash db.log) next_row
    next_row-RowIsValid = record {
      prev_hash = refl;
      body = body;
      stored = env.loads-dumps (obj body);
      record_bytes = record_bytes;
      canonical = canonical;
      entry_hash = refl;
      columns = require_columns-Names body columns named;
    }

    write_entry-IsConsistent :
        (f : Frontier)
        → Represents env.sha256 (leaves db.log ++ leaf_of next_row ∷ []) f
        → IsConsistent env
            (write_entry env db next_row body f
              (merkle_root env.sha256 (leaves db.log ++ leaf_of next_row ∷ []))).1
    unfolding write_entry
    write_entry-IsConsistent f rep = record {
      numbered = Numbered-append 1 db.log next_row v.numbered (omega arith);
      chain =
          Chain-append env genesis db.log next_row v.chain
            (rw (chain_end-head_hash db.log) next_row-RowIsValid);
      sequence = omega (arith, length-append db.log (next_row ∷ []));
      boundaries = rw (v.boundaries, boundaries_from-append env [] db.log next_row);
      frontier = f;
      represents = rw (leaves-append db.log (next_row ∷ [])) rep;
      saved = refl;
      created = v.created;
      created_at = v.created_at;
    }

    boundary-free : has_boundary (length db.log + 1) db.boundaries ≡ false
    unfolding has_boundary
    boundary-free = rw (
      v.boundaries,
      boundary_at-above env 1 (length db.log + 1) [] db.log v.numbered (omega arith),
      has_boundary,
    )

    insert_entry-IsConsistent :
        length db.log < 2 ^ 64
        → (f : Frontier) × (insert_entry env db
              (head_seq db.log)
              (head_hash db.log)
              (chain_hash env (head_hash db.log) record_bytes)
              v.frontier
              columns
              body
              created_at
            ≡ ok (
                write_entry env db next_row body f
                  (merkle_root env.sha256 (leaves db.log ++ leaf_of next_row ∷ []))))
          × Represents env.sha256 (leaves db.log ++ leaf_of next_row ∷ []) f
    unfolding insert_entry of_frontier
    insert_entry-IsConsistent bound =
        let leaf = leaf_of-RowIsValid env next_row next_row-RowIsValid in
        let (f, grown, rep) =
          frontier_append-Represents env.sha256 (leaf_of next_row) v.represents
            (omega (arith, length-leaves db.log)) in
        let head : head_seq db.log ≡ length db.log = head_seq-Numbered db.log v.numbered in
        let seq : max db.log_sequence (head_seq db.log) + 1 ≡ length db.log + 1 =
          omega (arith, v.sequence) in
        let same : (length db.log + 1 == length db.log + 1) ≡ true = ground arith in
        let read : unhex (chain_hash env (head_hash db.log) record_bytes) ≡ ok (leaf_of next_row) =
          unfold unhex in rw (leaf.1, unhex) in
        (f, rw (seq, head, same, read, grown, boundary-free), rep)

    -- On consistent tables of fewer than 2^64 entries, `_append_locked` of a record that has its
    -- five text columns, an allowed hash version and a canonical form succeeds: the log gains
    -- exactly the row chained to its head at the next number, the entry returned carries that
    -- number and hash, and the tables are consistent again.
    pub append_locked-IsConsistent :
        valid_hash_version body ≡ true
        → length db.log < 2 ^ 64
        → (entry : LogEntry) × (db' : Database Doc) × (append_locked env db body created_at
            ≡ ok (entry, db'))
          × IsConsistent env db'
          × (db'.log ≡ db.log ++ next_row ∷ [])
          × (entry.seq ≡ length db.log + 1)
          × (entry.entry_hash ≡ next_row.entry_hash)
    unfolding append_locked latching of_canonical write_entry
    append_locked-IsConsistent version bound =
        let (f, inserted, rep) = insert_entry-IsConsistent bound in
        let loaded : load_frontier env db.merkle_frontier ≡ ok v.frontier = rw v.saved (
          load_frontier-save_frontier env v.frontier
            (Represents-levels env v.represents (Chain-digests env genesis db.log v.chain))) in
        (
          (write_entry env db next_row body f
              (merkle_root env.sha256 (leaves db.log ++ leaf_of next_row ∷ []))).0,
          (write_entry env db next_row body f
              (merkle_root env.sha256 (leaves db.log ++ leaf_of next_row ∷ []))).1,
          rw (
            named,
            version,
            canonical,
            loaded,
            validate_append_anchors-IsConsistent env db v,
            ascii-head_hash db.log v.chain,
            inserted,
          ),
          write_entry-IsConsistent f rep,
          refl,
          refl,
          refl,
        )
