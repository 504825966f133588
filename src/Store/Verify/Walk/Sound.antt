-- ===== src/Store/Verify/Walk/Sound.antt =====
-- The walk finds nothing exactly in a log that is numbered, chained and well formed.
use curator_skill_registry.Base.{
  ℕ, suc, ◌+◌, ◌≡◌, ◌↔◌, refl, sym, ap, ◌∙◌, subst, Bool, true, false, List, [], ◌∷◌, Option, none,
  some, Text, text_eq, text_eq_refl, eq_of_text_eq, ◌==◌, Bytes, Outcome, ok, err, append-nil_left,
  bind-eq-ok, ok-injective, arith, all, ltb, All, Bool-cases, inl, inr,
}
use curator_skill_registry.Json.{Value, Fields, null, bool, int, float, str, arr, obj, end}
use curator_skill_registry.Json.Canonical.{CanonicalError}
use curator_skill_registry.Signing.{Env, canonical_bytes}
use curator_skill_registry.Store.{LogRow, Failure, genesis, record_json, log_gap}
use curator_skill_registry.Store.Append.{ascii, chain_hash}
use curator_skill_registry.Store.Invariant.{Names, columns_of, Numbered, RowIsValid, Chain}
use curator_skill_registry.Store.Invariant.Preserved.{RowIsValid-ascii}
use curator_skill_registry.Store.Verify.Walk.{
  timestamp, report, Decoded, decoded_as, holds_text, column_tests, row_tests, reports, decode_row,
  row_errors, walk_log,
}

report-eq-nil : (b : Bool) (f : Failure) → report b f ≡ [] → b ≡ true
unfolding report
report-eq-nil true f h = refl
report-eq-nil false f h = cc

holds_text-eq : (v : Option Value) (t : Text) → holds_text v t ≡ true → v ≡ some (str t)
unfolding holds_text
holds_text-eq none t h = cc
holds_text-eq (some (str s)) t h = ap (λ u. some (str u)) (eq_of_text_eq s t h)
holds_text-eq (some null) t h = cc
holds_text-eq (some (bool b)) t h = cc
holds_text-eq (some (int n)) t h = cc
holds_text-eq (some (float f)) t h = cc
holds_text-eq (some (arr xs)) t h = cc
holds_text-eq (some (obj fs)) t h = cc

reports-nil : (tests : List (Bool × Failure)) → reports tests ≡ [] → All (λ t. t.0 ≡ true) tests
unfolding reports
reports-nil [] h = tt
reports-nil ((b, f) ∷ rest) h =
    let (e, k) = append-nil_left (report b f) (reports rest) h in
    (report-eq-nil b f e, reports-nil rest k)

nil-reports : (tests : List (Bool × Failure)) → All (λ t. t.0 ≡ true) tests → reports tests ≡ []
unfolding reports report
nil-reports [] h = refl
nil-reports ((b, f) ∷ rest) h = rw h.0 (nil-reports rest h.1)

ascii-ok : (t : Text) {b : Bytes} → ascii t ≡ ok b → b ≡ t
unfolding ascii
ascii-ok t h = elim (Bool-cases (all (λ c. ltb c 128) t)) [
  | inl e ↦ sym (ok-injective (rw e at h))
  | inr e ↦ let no = rw e at h in cc
]

module _ {Doc : Type 0} (row : LogRow Doc) (body : Fields) where
  column_tests-Names : All (λ t. t.0 ≡ true) (column_tests row body) → Names body (columns_of row)
  column_tests-Names (a, (b, (c, (d, (e, _))))) = record {
    name = holds_text-eq _ row.name a;
    source_identity = holds_text-eq _ row.source_identity b;
    commit_hash = holds_text-eq _ row.commit_hash c;
    content_sha256 = holds_text-eq _ row.content_sha256 d;
    status = holds_text-eq _ row.status e;
  }

  Names-column_tests : Names body (columns_of row) → All (λ t. t.0 ≡ true) (column_tests row body)
  unfolding holds_text
  Names-column_tests n = (
    rw n.name (text_eq_refl row.name),
    (
      rw n.source_identity (text_eq_refl row.source_identity),
      (
        rw n.commit_hash (text_eq_refl row.commit_hash),
        (
          rw n.content_sha256 (text_eq_refl row.content_sha256),
          (rw n.status (text_eq_refl row.status), tt),
        ),
      ),
    ),
  )

decoded_as-nil :
    (body : Fields) (o : Outcome CanonicalError Bytes)
    → (decoded_as body o).errors ≡ []
    → (b : Bytes) × (o ≡ ok b)
unfolding decoded_as
decoded_as-nil body (ok b) h = (b, refl)
decoded_as-nil body (err e) h = cc

-- What stands in a row whose decoding reports nothing.
record Readable {Doc : Type 0} (env : Env Doc) (row : LogRow Doc) : Type 0 where
  body : Fields
  stored : env.loads row.record_json ≡ some (obj body)
  encoded : Bytes
  canonical : canonical_bytes env body ≡ ok encoded

module _ {Doc : Type 0} (env : Env Doc) where
  decode_row-Readable :
      (row : LogRow Doc)
      → (r : Readable env row)
      → decode_row env row ≡ record { errors = []; body = r.body; encoded = r.encoded }
  unfolding decode_row decoded_as
  decode_row-Readable row r = rw (decode_row, r.stored, r.canonical)

  decode_as-Readable :
      (row : LogRow Doc) (v : Option Value)
      → env.loads row.record_json ≡ v
      → (elim v as (λ _. Decoded) [
        | some (obj body) ↦ decoded_as body (canonical_bytes env body)
        | _ ↦ record { errors = record_json ∷ []; body = end; encoded = [] }
      ]).errors
        ≡ []
      → Readable env row
  decode_as-Readable row none e h = cc
  decode_as-Readable row (some (obj body)) e h =
      let (b, c) = decoded_as-nil body (canonical_bytes env body) h in
      record { body = body; stored = e; encoded = b; canonical = c }
  decode_as-Readable row (some (str s)) e h = cc
  decode_as-Readable row (some null) e h = cc
  decode_as-Readable row (some (bool b)) e h = cc
  decode_as-Readable row (some (int n)) e h = cc
  decode_as-Readable row (some (float f)) e h = cc
  decode_as-Readable row (some (arr xs)) e h = cc

  Readable-decode_row : (row : LogRow Doc) → (decode_row env row).errors ≡ [] → Readable env row
  unfolding decode_row
  Readable-decode_row row h = decode_as-Readable row (env.loads row.record_json) refl h

module _ {Doc : Type 0} (env : Env Doc) (reformat : Text → Option Text) where
  -- A row that the walk passes, behind the row with the hash `previous`.
  abbrev pub Passes : Text → ℕ → LogRow Doc → Type 0
  Passes previous n row =
      (row.seq ≡ n) × RowIsValid env previous row × (timestamp reformat row.created_at ≡ true)

  row_errors-Passes :
      (previous : Text) (n : ℕ) (row : LogRow Doc)
      → row_errors env reformat previous previous n row ≡ []
      → Passes previous n row
  unfolding row_errors
  row_errors-Passes previous n row h =
      let d = decode_row env row in
      let (a, h1) = append-nil_left (report (row.seq == n) log_gap) _ h in
      let (b, h2) =
        append-nil_left d.errors (reports (row_tests env reformat previous previous row d)) h1 in
      let r = Readable-decode_row env row b in
      let whole = decode_row-Readable env row r in
      let (before, (hash, (time, columns))) =
        reports-nil (row_tests env reformat previous previous row d) h2 in
      (
        ground (arith, report-eq-nil (row.seq == n) log_gap a),
        record {
          prev_hash = eq_of_text_eq row.prev_hash previous before;
          body = r.body;
          stored = r.stored;
          record_bytes = r.encoded;
          canonical = r.canonical;
          entry_hash =
              eq_of_text_eq row.entry_hash (chain_hash env previous d.encoded) hash
              ∙ ap (λ x. chain_hash env previous x.encoded) whole;
          columns =
              column_tests-Names row r.body
                (subst (λ x. All (λ t. t.0 ≡ true) (column_tests row x.body)) whole columns);
        },
        time,
      )

  Passes-row_errors :
      (previous : Text) (n : ℕ) (row : LogRow Doc)
      → Passes previous n row
      → row_errors env reformat previous previous n row ≡ []
  unfolding row_errors report
  Passes-row_errors previous n row p =
      let v = p.1 in
      let whole = decode_row-Readable env row (record {
        body = v.body;
        stored = v.stored;
        encoded = v.record_bytes;
        canonical = v.canonical;
      }) in
      let number : (row.seq == n) ≡ true = ground (arith, p.0) in
      let before : text_eq row.prev_hash previous ≡ true = rw v.prev_hash (text_eq_refl previous) in
      let hash : text_eq row.entry_hash (chain_hash env previous v.record_bytes) ≡ true =
        rw v.entry_hash (text_eq_refl (chain_hash env previous v.record_bytes)) in
      rw (number, whole)
        (nil-reports
          (row_tests env reformat previous previous row
            (record { errors = []; body = v.body; encoded = v.record_bytes }))
          (before, (hash, (p.2, Names-column_tests row v.body v.columns))))

  -- What the walk passes: numbered rows in a hash chain, with a time in each.
  abbrev pub Clean : Text → ℕ → List (LogRow Doc) → Type 0
  Clean previous n rows =
      Numbered n rows
      × Chain env previous rows
      × All (λ r. timestamp reformat r.created_at ≡ true) rows

  walk_log-Clean :
      (previous : Text) (n : ℕ) (rows : List (LogRow Doc))
      → walk_log env reformat previous n rows ≡ ok []
      → Clean previous n rows
  unfolding walk_log
  walk_log-Clean previous n [] h = (tt, tt, tt)
  walk_log-Clean previous n (row ∷ rows) h =
      let (prev, e, h1) = bind-eq-ok (ascii previous) _ h in
      let (rest, k, h2) =
        bind-eq-ok (walk_log env reformat row.entry_hash (row.seq + 1) rows) _ h1 in
      let (mine, others) =
        append-nil_left (row_errors env reformat previous prev n row) rest (ok-injective h2) in
      let same = ascii-ok previous e in
      let p =
        row_errors-Passes previous n row
          (subst (λ b. row_errors env reformat previous b n row ≡ []) same mine) in
      let next : row.seq + 1 ≡ suc n = omega (arith, p.0) in
      let (num, chain, times) = walk_log-Clean row.entry_hash (suc n) rows (
        subst (λ i. walk_log env reformat row.entry_hash i rows ≡ ok []) next (k ∙ ap ok others)) in
      ((p.0, num), (p.1, chain), (p.2, times))

  pub Clean-walk_log :
      (previous : Text) (n : ℕ) (rows : List (LogRow Doc))
      → all (λ c. ltb c 128) previous ≡ true
      → Clean previous n rows
      → walk_log env reformat previous n rows ≡ ok []
  unfolding walk_log ascii
  Clean-walk_log previous n [] h c = refl
  Clean-walk_log previous n (row ∷ rows) h ((i, num), (v, chain), (t, times)) =
      let next : row.seq + 1 ≡ suc n = omega (arith, i) in
      let rest =
        Clean-walk_log row.entry_hash (suc n) rows (RowIsValid-ascii env row v)
          (num, chain, times) in
      rw (h, next, rest, Passes-row_errors previous n row (i, v, t))

  -- The walk over the log finds nothing exactly when the rows are numbered from 1, form a hash
  -- chain from the genesis hash of records with canonical forms and matching columns, and each
  -- have a well-formed time.
  pub walk_log_iff :
      (rows : List (LogRow Doc))
      → (walk_log env reformat genesis 1 rows ≡ ok []) ↔ (
          Numbered 1 rows
          × Chain env genesis rows
          × All (λ r. timestamp reformat r.created_at ≡ true) rows)
  walk_log_iff rows = (walk_log-Clean genesis 1 rows, Clean-walk_log genesis 1 rows refl)
