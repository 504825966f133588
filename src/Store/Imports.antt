-- ===== src/Store/Imports.antt =====
-- Import batches of the store: `append_imports` and `append_upstream_import`, with the comparison
-- of the offered boundary against the high-water mark of the upstream key.
pub mod Records
pub mod Marks
use curator_skill_registry.Base.{
  ℕ, suc, ◌+◌, Bool, true, false, List, [], ◌∷◌, ◌++◌, Option, none, some, Text, text_eq, ltb, ◌==◌,
  ◌&&◌, ◌||◌, not, if◌then◌else◌, Outcome, ok, err, ◌>>=◌, ◌>>◌,
}
use curator_skill_registry.Json.{Fields}
use curator_skill_registry.Signing.{Env}
use curator_skill_registry.Store.{
  Diagnostic, import_upstream_rollback, import_upstream_inconsistent, LogEntry, ImportRow,
  UpstreamHighWater, Database, StoreError, high_water_conflict,
}
use curator_skill_registry.Store.Append.{append_locked}
use curator_skill_registry.Store.Transaction.{Store, write_transaction, published}

-- `offered.head != current.head or ...`, negated
unfoldable pub same_body : UpstreamHighWater → UpstreamHighWater → Bool
same_body current offered =
    text_eq offered.head current.head
    && text_eq offered.merkle_root current.merkle_root
    && offered.log_size == current.log_size

-- `_upstream_offer_diagnostic(current, offered)`
unfoldable pub upstream_offer_diagnostic : UpstreamHighWater → UpstreamHighWater → Option Diagnostic
upstream_offer_diagnostic current offered =
    if ltb offered.version current.version
    then some import_upstream_rollback
    else (if offered.version == current.version && not (same_body current offered)
        then some import_upstream_inconsistent
        else none)

-- SELECT ... FROM upstream_high_water WHERE key_id = ?
unfoldable pub high_water : Text → List UpstreamHighWater → Option UpstreamHighWater
high_water key_id [] = none
high_water key_id (m ∷ ms) = if text_eq m.key_id key_id then some m else high_water key_id ms

-- the row that INSERT OR REPLACE replaces
unfoldable pub drop_high_water : Text → List UpstreamHighWater → List UpstreamHighWater
drop_high_water key_id [] = []
drop_high_water key_id (m ∷ ms) =
    let rest = drop_high_water key_id ms in if text_eq m.key_id key_id then rest else m ∷ rest

-- INSERT OR REPLACE INTO upstream_high_water
unfoldable pub put_high_water : UpstreamHighWater → List UpstreamHighWater → List UpstreamHighWater
put_high_water mark marks = drop_high_water mark.key_id marks ++ mark ∷ []

-- SELECT 1 FROM imported_records WHERE fingerprint = ?
unfoldable pub is_imported : Text → List ImportRow → Bool
is_imported fingerprint [] = false
is_imported fingerprint (r ∷ rs) = text_eq r.fingerprint fingerprint || is_imported fingerprint rs

-- The locals `imported` and `last_entry` of a batch.
pub record Batch : Type 0 where
  pub imported : ℕ
  pub last_entry : Option LogEntry

abbrev pub no_batch : Batch
no_batch = record { imported = 0; last_entry = none }

pub data ImportOutcome : Type 0 where
  advanced noop accepted_older : ImportOutcome

-- `UpstreamImportResult`, with the entry that is published
pub record UpstreamImport : Type 0 where
  pub batch : Batch
  pub persisted : Option UpstreamHighWater
  pub outcome : ImportOutcome

-- the comparison of `append_upstream_import`
unfoldable pub import_decision :
    Option UpstreamHighWater → UpstreamHighWater → Bool → Outcome StoreError ImportOutcome
import_decision none offered accept_older = ok advanced
import_decision (some current) offered accept_older =
    elim (upstream_offer_diagnostic current offered) [
      | some import_upstream_rollback ↦
          if accept_older
          then ok accepted_older
          else err (high_water_conflict import_upstream_rollback current offered)
      | some import_upstream_inconsistent ↦
          err (high_water_conflict import_upstream_inconsistent current offered)
      | none ↦ if offered.version == current.version then ok noop else ok advanced
    ]

-- the comparison of `append_imports`
unfoldable pub require_offer :
    Option UpstreamHighWater → UpstreamHighWater → Outcome StoreError (Unit {0})
require_offer none offered = ok tt
require_offer (some current) offered = elim (upstream_offer_diagnostic current offered) [
  | none ↦ ok tt
  | some d ↦ err (high_water_conflict d current offered)
]

module _ {Doc : Type 0} where
  -- the high-water mark is written when it advances
  unfoldable pub settle : ImportOutcome → UpstreamHighWater → Database Doc → Database Doc
  settle advanced offered db = record db {
    upstream_high_water = put_high_water offered db.upstream_high_water;
  }
  settle noop offered db = db
  settle accepted_older offered db = db

  unfoldable pub require_mark :
      Option UpstreamHighWater → Database Doc → Outcome StoreError (Unit {0})
  require_mark none db = ok tt
  require_mark (some offered) db =
      require_offer (high_water offered.key_id db.upstream_high_water) offered

  unfoldable pub settle_mark : Option UpstreamHighWater → Database Doc → Database Doc
  settle_mark none db = db
  settle_mark (some offered) db = settle advanced offered db

module _ {Doc : Type 0} (env : Env Doc) where
  -- the entry and its row in `imported_records`
  unfoldable pub import_one :
      Database Doc → Text → Text → Fields → Outcome StoreError (LogEntry × Database Doc)
  import_one db created_at fingerprint body = do
    (entry, grown) ← append_locked env db body created_at
    ok (
      entry,
      record grown {
        imported_records =
            grown.imported_records
            ++ record { fingerprint = fingerprint; imported_at = created_at; seq = some entry.seq }
              ∷ [];
      },
    )

  -- the loop over the records of a batch
  unfoldable pub import_records :
      Database Doc → Batch → Text → List (Text × Fields) → Outcome StoreError (Batch × Database Doc)
  import_records db batch created_at [] = ok (batch, db)
  import_records db batch created_at ((fingerprint, body) ∷ records) =
      if is_imported fingerprint db.imported_records
      then import_records db batch created_at records
      else (do
        (entry, grown) ← import_one db created_at fingerprint body
        import_records grown (record { imported = suc batch.imported; last_entry = some entry })
            created_at records)

  -- the body of the transaction of `append_imports`
  unfoldable pub imports_body :
      List (Text × Fields)
      → Text
      → Option UpstreamHighWater
      → Database Doc
      → Outcome StoreError (Batch × Database Doc)
  imports_body records created_at mark db = do
    require_mark mark db
    (batch, grown) ← import_records db no_batch created_at records
    ok (batch, settle_mark mark grown)

  -- `append_imports(...)`; Python returns the count
  unfoldable pub append_imports :
      Store Doc
      → ℕ
      → List (Text × Fields)
      → Text
      → Option UpstreamHighWater
      → Outcome StoreError Batch × Store Doc
  append_imports s now records created_at mark =
      published (λ b. b.last_entry) (write_transaction s now (imports_body records created_at mark))

  -- the body of the transaction of `append_upstream_import`
  unfoldable pub upstream_body :
      List (Text × Fields)
      → Text
      → UpstreamHighWater
      → Bool
      → Database Doc
      → Outcome StoreError (UpstreamImport × Database Doc)
  upstream_body records created_at offered accept_older db = do
    let current = high_water offered.key_id db.upstream_high_water
    outcome ← import_decision current offered accept_older
    (batch, grown) ← import_records db no_batch created_at records
    ok (
      record { batch = batch; persisted = current; outcome = outcome },
      settle outcome offered grown,
    )

  -- `append_upstream_import(...)`
  unfoldable pub append_upstream_import :
      Store Doc
      → ℕ
      → List (Text × Fields)
      → Text
      → UpstreamHighWater
      → Bool
      → Outcome StoreError UpstreamImport × Store Doc
  append_upstream_import s now records created_at offered accept_older =
      published (λ r. r.batch.last_entry)
        (write_transaction s now (upstream_body records created_at offered accept_older))
