-- ===== src/Store/Verify/Verified/Keeps.antt =====
-- What one append, one purge and one import keep of the rows beside the log.
use curator_skill_registry.Base.{
  ℕ, ◌+◌, ◌≡◌, refl, sym, ◌∙◌, Bool, true, List, [], ◌∷◌, ◌++◌, Option, some, Text, codes, text_eq,
  text_eq_refl, length, All, All-append, All-weaken, arith, ◌==◌, leb, Bool-cases, Option-cases,
  inl, inr,
}
use curator_skill_registry.Json.{
  equals_nat, has_exactly, Fields, pos, int, str, obj, get, keys, put,
}
use curator_skill_registry.Signing.{Env}
use curator_skill_registry.Store.{
  LogRow, LogEntry, IdempotencyRow, ImportRow, UpstreamHighWater, Database, row_at,
}
use curator_skill_registry.Store.Transaction.{KeyedRequest, valid_request, response_of, purge}
use curator_skill_registry.Store.Imports.{drop_high_water, put_high_water}
use curator_skill_registry.Store.Invariant.{Numbered}
use curator_skill_registry.Store.Invariant.Rows.{head_seq-Numbered, Numbered-append, row_at-middle}
use curator_skill_registry.Store.Invariant.Tables.{Writes}
use curator_skill_registry.Store.Verify.Walk.{report, timestamp}
use curator_skill_registry.Store.Verify.Ledgers.{
  response_holds, equals_text, or_else, hash_of, idempotency_holds, import_fingerprint,
  import_error,
}
use curator_skill_registry.Store.Verify.Verified.{Fits, LedgersHold}

module _ {Doc : Type 0} where
  row_at-append :
      (n : ℕ) (log new : List (LogRow Doc)) {q : LogRow Doc}
      → row_at n log ≡ some q
      → row_at n (log ++ new) ≡ some q
  unfolding row_at
  row_at-append n [] new h = cc
  row_at-append n (r ∷ rs) new h = elim (Bool-cases (r.seq == n)) [
    | inl e ↦ rw e (rw e at h)
    | inr e ↦ rw e (row_at-append n rs new (rw e at h))
  ]

  pub All-purge :
      (P : IdempotencyRow Doc → Type 0) (now : ℕ) (rows : List (IdempotencyRow Doc))
      → All P rows
      → All P (purge now rows)
  unfolding purge
  All-purge P now [] h = tt
  All-purge P now (r ∷ rs) h = elim (Bool-cases (leb r.expires_at now)) [
    | inl e ↦ rw (purge, e) (All-purge P now rs h.1)
    | inr e ↦ rw (purge, e) (h.0, All-purge P now rs h.1)
  ]

All-drop_high_water :
    (P : UpstreamHighWater → Type 0) (key_id : Text) (ms : List UpstreamHighWater)
    → All P ms
    → All P (drop_high_water key_id ms)
unfolding drop_high_water
All-drop_high_water P key_id [] h = tt
All-drop_high_water P key_id (m ∷ ms) h = elim (Bool-cases (text_eq m.key_id key_id)) [
  | inl e ↦ rw (drop_high_water, e) (All-drop_high_water P key_id ms h.1)
  | inr e ↦ rw (drop_high_water, e) (h.0, All-drop_high_water P key_id ms h.1)
]

pub All-put_high_water :
    (P : UpstreamHighWater → Type 0) (mark : UpstreamHighWater) (ms : List UpstreamHighWater)
    → P mark
    → All P ms
    → All P (put_high_water mark ms)
unfolding put_high_water
All-put_high_water P mark ms p h =
    All-append P _ (mark ∷ []) (All-drop_high_water P mark.key_id ms h) (p, tt)

-- The stored response of an entry, as the ledger check reads it.
response_of-fields :
    (e : LogEntry)
    → (has_exactly (codes "seq" ∷ codes "entry_hash" ∷ []) (response_of e) ≡ true)
      × (get (codes "seq") (response_of e) ≡ some (int (pos e.seq)))
      × (get (codes "entry_hash") (response_of e) ≡ some (str e.entry_hash))
unfolding response_of has_exactly put get keys text_eq
response_of-fields e = (refl, refl, refl)

module _ {Doc : Type 0} (env : Env Doc) (reformat : Text → Option Text)
    (float_eq : Text → ℕ → Bool) where
  Fits-append :
      (log new : List (LogRow Doc)) (row : IdempotencyRow Doc)
      → Fits env reformat float_eq log row
      → Fits env reformat float_eq (log ++ new) row
  unfolding idempotency_holds
  Fits-append log new row (q, e, h) =
      let later = row_at-append row.seq log new e in (q, later, rw later (rw e at h))

  import_error-row :
      (log : List (LogRow Doc)) (row : ImportRow)
      → import_error env log row ≡ []
      → (n : ℕ) × (q : LogRow Doc) × (row.seq ≡ some n) × (row_at n log ≡ some q)
  unfolding import_error
  import_error-row log row h = elim (Option-cases row.seq) [
    | inl e ↦ let no = rw (import_error, e) at h in cc
    | inr (n, e) ↦ elim (Option-cases (row_at n log)) [
      | inl k ↦ let no = rw (import_error, e, k) at h in cc
      | inr (q, k) ↦ (n, q, e, k)
    ]
  ]

  import_error-append :
      (log new : List (LogRow Doc)) (row : ImportRow)
      → import_error env log row ≡ []
      → import_error env (log ++ new) row ≡ []
  unfolding import_error
  import_error-append log new row h =
      let (n, q, e, k) = import_error-row log row h in
      rw (import_error, e, row_at-append n log new k) (rw (import_error, e, k) at h)

  -- After one append the new row has its number, and the other tables still fit.
  pub LedgersHold-Writes :
      {db db' : Database Doc} {entry : LogEntry} (body : Fields) (created_at : Text)
      → Writes env body created_at db db' entry
      → timestamp reformat created_at ≡ true
      → LedgersHold env reformat float_eq db
      → LedgersHold env reformat float_eq db'
  LedgersHold-Writes {db} {db'} body created_at w t v =
      let a = w.appends in
      let number : a.row.seq ≡ 1 + length db.log =
        omega (arith, w.next, head_seq-Numbered db.log v.numbered) in
      record {
        numbered = rw a.log (Numbered-append 1 db.log a.row v.numbered number);
        created = rw a.created_at v.created;
        times = rw a.log (All-append _ db.log (a.row ∷ []) v.times (rw w.time t, tt));
        ledger =
            rw (a.log, a.idempotency)
              (All-weaken _ _ db.idempotency (Fits-append db.log (a.row ∷ [])) v.ledger);
        imports =
            rw (a.log, a.imported_records)
              (All-weaken _ _ db.imported_records (import_error-append db.log (a.row ∷ []))
                v.imports);
        marks = rw a.upstream_high_water v.marks;
      }

  -- Where the new row stands.
  row_at-Writes :
      {db db' : Database Doc} {entry : LogEntry} (body : Fields) (created_at : Text)
      (w : Writes env body created_at db db' entry)
      → Numbered 1 db.log
      → row_at entry.seq db'.log ≡ some w.appends.row
  row_at-Writes {db} {db'} {entry} body created_at w num =
      let a = w.appends in
      let number : a.row.seq ≡ 1 + length db.log =
        omega (arith, w.next, head_seq-Numbered db.log num) in
      let at : entry.seq ≡ 1 + length db.log = sym a.seq ∙ number in
      rw (a.log, at) (row_at-middle 1 db.log a.row [] (Numbered-append 1 db.log a.row num number))

  -- The ledger row of a keyed append fits the log behind the append.
  pub keyed_row-Fits :
      {db db' : Database Doc} {entry : LogEntry} (body : Fields) (request : KeyedRequest)
      → Writes env body request.created_at db db' entry
      → Numbered 1 db.log
      → valid_request request ≡ true
      → Fits env reformat float_eq db'.log (record {
        auditor_id = request.auditor_id;
        key = request.key;
        body_sha256 = request.body_sha256;
        response_json = env.dumps (obj (response_of entry));
        seq = entry.seq;
        expires_at = request.unix_now + request.ttl_seconds;
      })
  unfolding idempotency_holds response_holds equals_nat equals_text or_else hash_of valid_request
  keyed_row-Fits {db} {db'} {entry} body request w num h =
      let at = row_at-Writes body request.created_at w num in
      let (shape, seq, hash) = response_of-fields entry in
      let same : (entry.seq == entry.seq) ≡ true = ground arith in
      (
        w.appends.row,
        at,
        rw
            (
              env.loads-dumps,
              at,
              shape,
              seq,
              hash,
              same,
              w.appends.entry_hash,
              text_eq_refl entry.entry_hash,
            )
            (ground (arith, h)),
      )

  -- The row of an imported record fits the log behind its append.
  pub import_row-Fits :
      {db db' : Database Doc} {entry : LogEntry} (body : Fields) (created_at fingerprint : Text)
      → Writes env body created_at db db' entry
      → Numbered 1 db.log
      → import_fingerprint env (some (obj body)) ≡ some fingerprint
      → import_error env db'.log
          (record { fingerprint = fingerprint; imported_at = created_at; seq = some entry.seq })
        ≡ []
  unfolding import_error report
  import_row-Fits {db} {db'} {entry} body created_at fingerprint w num h = rw (
    import_error,
    row_at-Writes body created_at w num,
    w.stored,
    env.loads-dumps (obj body),
    h,
    text_eq_refl fingerprint,
  )
