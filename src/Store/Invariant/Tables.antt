-- ===== src/Store/Invariant/Tables.antt =====
-- An append touches the log, the boundaries and the frontier, and no other table. What it appends
-- is one row.
use curator_skill_registry.Base.{
  ◌+◌, ◌≡◌, refl, [], ◌∷◌, ◌++◌, Text, Bytes, Ensures, Ensures-then, Ensures-weaken, ensures_rules,
  ensure, ensure-eq-ok, max, ◌==◌, arith,
}
use curator_skill_registry.Json.{Fields, obj}
use curator_skill_registry.Merkle.{Frontier}
use curator_skill_registry.Signing.{Env}
use curator_skill_registry.Store.{LogRow, LogEntry, Database, latched, not_contiguous}
use curator_skill_registry.Store.Append.{Columns, new_row, write_entry, insert_entry, append_locked}
use curator_skill_registry.Store.Boundary.{head_seq}

-- The tables that an append leaves alone, and the row that it adds.
pub record Appends {Doc : Type 0} (db db' : Database Doc) (entry : LogEntry) : Type 0 where
  pub idempotency : db'.idempotency ≡ db.idempotency
  pub imported_records : db'.imported_records ≡ db.imported_records
  pub upstream_high_water : db'.upstream_high_water ≡ db.upstream_high_water
  pub created_at : db'.created_at ≡ db.created_at
  pub row : LogRow Doc
  pub log : db'.log ≡ db.log ++ row ∷ []
  pub seq : row.seq ≡ entry.seq
  pub entry_hash : row.entry_hash ≡ entry.entry_hash

-- The row is the next one, and stores the record and the time of the call.
pub record Writes {Doc : Type 0} (env : Env Doc) (body : Fields) (created_at : Text)
    (db db' : Database Doc) (entry : LogEntry) : Type 0 where
  pub appends : Appends db db' entry
  pub next : appends.row.seq ≡ head_seq db.log + 1
  pub stored : appends.row.record_json ≡ env.dumps (obj body)
  pub time : appends.row.created_at ≡ created_at

module _ {Doc : Type 0} (env : Env Doc) where
  write_entry-Writes :
      (db : Database Doc) (row : LogRow Doc) (body : Fields) (created_at : Text) (f : Frontier)
      (root : Bytes)
      → row.seq ≡ head_seq db.log + 1
      → row.record_json ≡ env.dumps (obj body)
      → row.created_at ≡ created_at
      → Writes env body created_at db
          (write_entry env db row body f root).1
          (write_entry env db row body f root).0
  unfolding write_entry
  write_entry-Writes db row body created_at f root next stored time = record {
    appends = record {
      idempotency = refl;
      imported_records = refl;
      upstream_high_water = refl;
      created_at = refl;
      row = row;
      log = refl;
      seq = refl;
      entry_hash = refl;
    };
    next = next;
    stored = stored;
    time = time;
  }

  insert_entry-Writes :
      (db : Database Doc) (prev hash : Text) (f : Frontier) (columns : Columns) (body : Fields)
      (created_at : Text)
      → Ensures
          (λ (r : LogEntry × Database Doc). Writes env body created_at db r.1 r.0)
          (insert_entry env db (head_seq db.log) prev hash f columns body created_at)
  unfolding insert_entry
  insert_entry-Writes db prev hash f columns body created_at =
      let seq = max db.log_sequence (head_seq db.log) + 1 in
      Ensures-then (ensure (seq == head_seq db.log + 1) (latched not_contiguous)) _ (λ same.
        let next : seq ≡ head_seq db.log + 1 =
          ground (arith, ensure-eq-ok (seq == head_seq db.log + 1) (latched not_contiguous) same) in
        let writes = λ (f' : Frontier) (root : Bytes).
          write_entry-Writes db (new_row env seq prev hash columns body created_at) body created_at
            f' root next refl refl in
        search (ensures_rules, writes) depth 8)

  pub append_locked-Writes :
      (db : Database Doc) (body : Fields) (created_at : Text)
      → Ensures
          (λ (r : LogEntry × Database Doc). Writes env body created_at db r.1 r.0)
          (append_locked env db body created_at)
  unfolding append_locked
  append_locked-Writes db body created_at = search (ensures_rules, insert_entry-Writes) depth 10

  pub append_locked-Appends :
      (db : Database Doc) (body : Fields) (created_at : Text)
      → Ensures
          (λ (r : LogEntry × Database Doc). Appends db r.1 r.0)
          (append_locked env db body created_at)
  append_locked-Appends db body created_at =
      Ensures-weaken (append_locked-Writes db body created_at) (λ r w. w.appends)
