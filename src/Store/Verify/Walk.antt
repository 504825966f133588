-- ===== src/Store/Verify/Walk.antt =====
-- The walk over the log of `_integrity_errors_on`: sequence numbers, hash chain, times and columns
-- of every row. `reformat` is `datetime.strptime(t, "%Y-%m-%dT%H:%M:%SZ")` in UTC, printed by
-- `isoformat` with `Z` for the offset; `none` is the ValueError of a text that it does not parse.
pub mod Sound
use curator_skill_registry.Base.{
  ℕ, ◌+◌, Bool, true, false, List, [], ◌∷◌, ◌++◌, Option, none, some, Text, codes, text_eq, ◌==◌,
  Bytes, if◌then◌else◌, Outcome, ok, err, ◌>>=◌,
}
use curator_skill_registry.Json.{Value, Fields, str, obj, end, get}
use curator_skill_registry.Json.Canonical.{CanonicalError}
use curator_skill_registry.Signing.{Env, canonical_bytes}
use curator_skill_registry.Store.{
  LogRow, Failure, StoreError, log_gap, record_json, wrong_prev_hash, wrong_entry_hash, wrong_time,
  wrong_column,
}
use curator_skill_registry.Store.Append.{ascii, chain_hash}

-- `_timestamp(value)`
unfoldable pub timestamp : (Text → Option Text) → Text → Bool
timestamp reformat value = elim (reformat value) [ none ↦ false | some t ↦ text_eq t value ]

-- `if not test: errors.append(...)`
unfoldable pub report : Bool → Failure → List Failure
report true f = []
report false f = f ∷ []

-- The record of a row and its canonical bytes, or what stands for them after an error.
pub record Decoded : Type 0 where
  pub errors : List Failure
  pub body : Fields
  pub encoded : Bytes

unfoldable pub decoded_as : Fields → Outcome CanonicalError Bytes → Decoded
decoded_as body (ok b) = record { errors = []; body = body; encoded = b }
decoded_as body (err e) = record { errors = record_json ∷ []; body = end; encoded = [] }

-- `row[column] != record.get(field)`, negated
unfoldable pub holds_text : Option Value → Text → Bool
holds_text (some (str t)) column = text_eq t column
holds_text _ column = false

-- a run of such tests
unfoldable pub reports : List (Bool × Failure) → List Failure
reports [] = []
reports ((test, f) ∷ rest) = report test f ++ reports rest

module _ {Doc : Type 0} where
  -- the loop over the five columns
  abbrev pub column_tests : LogRow Doc → Fields → List (Bool × Failure)
  column_tests row body =
      (holds_text (get (codes "name") body) row.name, wrong_column (codes "name"))
      ∷ (
        holds_text (get (codes "source_identity") body) row.source_identity,
        wrong_column (codes "source_identity"),
      )
      ∷ (holds_text (get (codes "commit") body) row.commit_hash, wrong_column (codes "commit_hash"))
      ∷ (
        holds_text (get (codes "content_sha256") body) row.content_sha256,
        wrong_column (codes "content_sha256"),
      )
      ∷ (holds_text (get (codes "status") body) row.status, wrong_column (codes "status"))
      ∷ []

module _ {Doc : Type 0} (env : Env Doc) where
  -- the `try` around `json.loads` and `canonical_bytes`
  unfoldable pub decode_row : LogRow Doc → Decoded
  decode_row row = elim (env.loads row.record_json) [
    | some (obj body) ↦ decoded_as body (canonical_bytes env body)
    | _ ↦ record { errors = record_json ∷ []; body = end; encoded = [] }
  ]

module _ {Doc : Type 0} (env : Env Doc) (reformat : Text → Option Text) where
  -- the tests of a row behind its decoding, against the hash `previous`, whose bytes are `prev`
  abbrev pub row_tests : Text → Bytes → LogRow Doc → Decoded → List (Bool × Failure)
  row_tests previous prev row d =
      (text_eq row.prev_hash previous, wrong_prev_hash)
      ∷ (text_eq row.entry_hash (chain_hash env prev d.encoded), wrong_entry_hash)
      ∷ (timestamp reformat row.created_at, wrong_time)
      ∷ column_tests row d.body

  -- what one row adds
  unfoldable pub row_errors : Text → Bytes → ℕ → LogRow Doc → List Failure
  row_errors previous prev expected_seq row =
      let d = decode_row env row in
      report (row.seq == expected_seq) log_gap
      ++ (d.errors ++ reports (row_tests previous prev row d))

  -- The loop over the rows. `previous.encode("ascii")` may raise.
  unfoldable pub walk_log : Text → ℕ → List (LogRow Doc) → Outcome StoreError (List Failure)
  walk_log previous expected_seq [] = ok []
  walk_log previous expected_seq (row ∷ rows) = do
    prev ← ascii previous
    rest ← walk_log row.entry_hash (row.seq + 1) rows
    ok (row_errors previous prev expected_seq row ++ rest)
