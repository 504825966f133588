-- ===== src/Store/Verify/Ledgers.antt =====
-- The checks of `_integrity_errors_on` on the tables beside the log: the idempotency ledger, the
-- imported records and the high-water marks. `float_eq` compares a float
-- with a number.
use curator_skill_registry.Base.{
  ℕ, Bool, true, false, List, [], ◌∷◌, ◌++◌, Option, none, some, Text, codes, text_eq, hex, hex256,
  is_lower_hex, leb, ◌==◌, ◌&&◌, not, if◌then◌else◌, length, all, map,
}
use curator_skill_registry.Json.{
  equals_nat, has_exactly, Value, str, arr, obj, null, get, items, of_list, nonempty_str, as_str,
}
use curator_skill_registry.Signing.{Env}
use curator_skill_registry.Store.{
  LogRow, IdempotencyRow, ImportRow, UpstreamHighWater, Failure, idempotency_row, import_unnumbered,
  import_orphan, import_inconsistent, high_water_row, row_at,
}
use curator_skill_registry.Store.Transaction.{valid_key}
use curator_skill_registry.Store.Verify.Walk.{report, timestamp}

-- `response.get("entry_hash") == expected_entry_hash`, where both may be `None`
unfoldable pub equals_text : Option Value → Option Text → Bool
equals_text (some (str s)) (some t) = text_eq s t
equals_text (some null) none = true
equals_text none none = true
equals_text _ _ = false

-- the first hit of a loop over rows
unfoldable pub or_else : {A : Type 0} → Option A → Option A → Option A
or_else (some a) other = some a
or_else none other = other

unfoldable pub hash_of : {Doc : Type 0} → Option (LogRow Doc) → Option Text
hash_of none = none
hash_of (some r) = some r.entry_hash

-- the signature of an endorsement by "upstream-import"
unfoldable pub endorsement_signature : Value → Option Text
endorsement_signature (obj fields) =
    if equals_text (get (codes "endorser") fields) (some (codes "upstream-import"))
    then elim (get (codes "sig") fields) [
      | some (obj envelope) ↦ as_str (get (codes "signature") envelope)
      | _ ↦ none
    ]
    else none
endorsement_signature _ = none

-- the loop over the endorsements
unfoldable pub upstream_signature : List Value → Option Value
upstream_signature [] = none
upstream_signature (v ∷ vs) =
    let rest = upstream_signature vs in
    elim (endorsement_signature v) [ none ↦ rest | some s ↦ some (str s) ]

-- `fields` as texts; `none` where one is no text or empty
unfoldable pub all_texts : List (Option Value) → Option (List Text)
all_texts [] = some []
all_texts (v ∷ vs) =
    let rest = all_texts vs in
    elim (nonempty_str v) [
      | none ↦ none
      | some t ↦ elim rest [ none ↦ none | some ts ↦ some (t ∷ ts) ]
    ]

module _ {Doc : Type 0} (env : Env Doc) where
  -- the digest of a JSON array of texts
  unfoldable pub texts_digest : List Text → Text
  texts_digest ts = hex (env.sha256 (env.utf8 (env.dumps (arr (of_list (map str ts))))))

  -- `_import_fingerprint(record)`
  unfoldable pub import_fingerprint : Option Value → Option Text
  import_fingerprint (some (obj body)) = elim (get (codes "endorsements") body) [
    | some (arr endorsements) ↦
        elim (all_texts (
          get (codes "source_identity") body
          ∷ get (codes "commit") body
          ∷ get (codes "content_sha256") body
          ∷ get (codes "status") body
          ∷ upstream_signature (items endorsements)
          ∷ [])) [ none ↦ none | some ts ↦ some (texts_digest ts) ]
    | _ ↦ none
  ]
  import_fingerprint _ = none

  -- one row of imported_records
  unfoldable pub import_error : List (LogRow Doc) → ImportRow → List Failure
  import_error log row = elim row.seq [
    | none ↦ import_unnumbered ∷ []
    | some seq ↦ elim (row_at seq log) [
      | none ↦ import_orphan ∷ []
      | some r ↦ elim (import_fingerprint (env.loads r.record_json)) [
        | none ↦ import_inconsistent ∷ []
        | some fingerprint ↦ report (text_eq fingerprint row.fingerprint) import_inconsistent
      ]
    ]
  ]

  unfoldable pub import_errors : List (LogRow Doc) → List ImportRow → List Failure
  import_errors log [] = []
  import_errors log (row ∷ rows) = import_error log row ++ import_errors log rows

-- the condition on a ledger row with its parsed response, negated
unfoldable pub response_holds :
    {Doc : Type 0} → (Text → ℕ → Bool) → IdempotencyRow Doc → Option Text → Option Value → Bool
response_holds float_eq row expected (some (obj response)) =
    not (length row.auditor_id == 0)
    && valid_key row.key
    && has_exactly (codes "seq" ∷ codes "entry_hash" ∷ []) response
    && equals_nat float_eq (get (codes "seq") response) row.seq
    && equals_text (get (codes "entry_hash") response) expected
    && hex256 row.body_sha256
response_holds float_eq row expected _ = false

module _ {Doc : Type 0} (env : Env Doc) (float_eq : Text → ℕ → Bool) where
  -- the row against the log; `walked` are the rows of the chain walk and `live` those that the
  -- second lookup reads
  unfoldable pub idempotency_holds :
      List (LogRow Doc) → List (LogRow Doc) → IdempotencyRow Doc → Bool
  idempotency_holds walked live row =
      response_holds float_eq row
        (or_else (hash_of (row_at row.seq walked)) (hash_of (row_at row.seq live)))
        (env.loads row.response_json)

  unfoldable pub idempotency_errors :
      List (LogRow Doc) → List (LogRow Doc) → List (IdempotencyRow Doc) → List Failure
  idempotency_errors walked live [] = []
  idempotency_errors walked live (row ∷ rows) =
      report (idempotency_holds walked live row) idempotency_row
      ++ idempotency_errors walked live rows

-- the condition on a row of upstream_high_water, negated
unfoldable pub mark_holds : (Text → Option Text) → UpstreamHighWater → Bool
mark_holds reformat mark =
    length mark.key_id == 16
    && all is_lower_hex mark.key_id
    && leb mark.log_size mark.version
    && hex256 mark.head
    && hex256 mark.merkle_root
    && timestamp reformat mark.updated_at

unfoldable pub mark_errors : (Text → Option Text) → List UpstreamHighWater → List Failure
mark_errors reformat [] = []
mark_errors reformat (mark ∷ marks) =
    report (mark_holds reformat mark) high_water_row ++ mark_errors reformat marks
