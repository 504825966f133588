-- ===== src/Store/History.antt =====
-- Histories of the store: the calls of its write operations in the order in which the lock runs
-- them, whatever each of them answers.
pub mod Growth
pub mod Consistency
pub mod Latch
pub mod Verified
use curator_skill_registry.Base.{ℕ, List, Text, Bool, Option, Outcome}
use curator_skill_registry.Json.{Fields}
use curator_skill_registry.Signing.{Env}
use curator_skill_registry.Store.{Failure, StoreError, UpstreamHighWater}
use curator_skill_registry.Store.Health.{HealthCode, refuse_startup_checkpoint}
use curator_skill_registry.Store.Transaction.{Store, KeyedRequest, append, append_idempotent}
use curator_skill_registry.Store.Verify.Refresh.{publish_refresh}
use curator_skill_registry.Store.Imports.{append_imports, append_upstream_import}

module _ {Doc : Type 0} (env : Env Doc) where
  -- One call, and the store behind it.
  pub data Step : Store Doc → Store Doc → Type 0 where
    append_step :
        {s : Store Doc} (now : ℕ) (body : Fields) (created_at : Text)
        → Step s (append env s now body created_at).1
    idempotent_step :
        {s : Store Doc} (now : ℕ) (body : Fields) (request : KeyedRequest)
        → Step s (append_idempotent env s now body request).1
    imports_step :
        {s : Store Doc} (now : ℕ) (records : List (Text × Fields)) (created_at : Text)
        (mark : Option UpstreamHighWater)
        → Step s (append_imports env s now records created_at mark).1
    upstream_step :
        {s : Store Doc} (now : ℕ) (records : List (Text × Fields)) (created_at : Text)
        (offered : UpstreamHighWater) (accept_older : Bool)
        → Step s (append_upstream_import env s now records created_at offered accept_older).1
    checkpoint_step :
        {s : Store Doc} (now : ℕ) (diagnostic : HealthCode) (detail : Failure)
        → Step s (record s { health = refuse_startup_checkpoint s.health now diagnostic detail })
    -- the publication of a background pass, whatever its walk over an earlier snapshot found
    refresh_step :
        {s : Store Doc} (now : ℕ) (utc_now : Text) (walk : Outcome StoreError (List Failure))
        → Step s (publish_refresh s now utc_now walk).1

  pub data Reachable (start : Store Doc) : Store Doc → Type 0 where
    here : Reachable start start
    step : {s s' : Store Doc} → Reachable start s → Step s s' → Reachable start s'
