-- ===== src/Tests/Sample.antt =====
-- Concrete parameters and inputs for the tests: a small stand-in for the digest and for the JSON
-- texts, a record, and a store with no entry.
use curator_skill_registry.Base.{
  ℕ, ◌+◌, ◌%◌, refl, suc, List, [], ◌∷◌, ◌++◌, some, none, Text, codes, Bytes, IsByte, IsDigest,
  All, arith, false, true,
}
use curator_skill_registry.Json.{Value, Items, Fields, str, arr, obj, end, nil, cons, field}
use curator_skill_registry.Merkle.{zeros}
use curator_skill_registry.Signing.{Env}
use curator_skill_registry.Store.{genesis, fresh_database, UpstreamHighWater}
use curator_skill_registry.Store.Health.{Health, not_ready}
use curator_skill_registry.Store.Transaction.{Store, KeyedRequest}

-- the sum of the bytes
abbrev pub total : Bytes → ℕ
total [] = 0
total (b ∷ bs) = b + total bs

-- 32 bytes, the first a checksum
abbrev pub digest : Bytes → Bytes
digest bs = (total bs + 1) % 256 ∷ zeros 31

zeros-All : (n : ℕ) → All IsByte (zeros n)
zeros-All ℕ.zero = tt
zeros-All (suc n) = (omega arith, zeros-All n)

pub digest-IsDigest : (b : Bytes) → IsDigest (digest b)
digest-IsDigest b = record { size = refl; bytes = (omega arith, zeros-All 31) }

-- the characters of a value, in order
abbrev mutual
  pub text_of : Value → List ℕ
  text_of (str t) = t
  text_of (arr xs) = text_of_items xs
  text_of (obj fs) = text_of_fields fs
  text_of _ = []

  pub text_of_items : Items → List ℕ
  text_of_items nil = []
  text_of_items (cons v rest) = text_of v ++ text_of_items rest

  pub text_of_fields : Fields → List ℕ
  text_of_fields end = []
  text_of_fields (field k v rest) = k ++ text_of v ++ text_of_fields rest

abbrev pub env : Env Value
env = record {
  sha256 = digest;
  sha256-IsDigest = digest-IsDigest;
  dumps = λ v. v;
  loads = some;
  loads-dumps = λ v. refl;
  utf8 = text_of;
}

abbrev pub time : Text
time = codes "2026-01-01T00:00:00Z"

abbrev pub skill : Text → Fields
skill name = field (codes "commit") (str (codes "c1")) (
    field (codes "content_sha256") (str (codes "ab")) (
      field (codes "name") (str name) (
        field (codes "source_identity") (str (codes "git"))
          (field (codes "status") (str (codes "approved")) end))))

abbrev pub healthy : Health
healthy = record {
  ready = true;
  verified_head = genesis;
  verified_log_size = 0;
  verified_at = time;
  error = none;
  code = not_ready;
  last_refresh = 0;
  integrity_failed = false;
  verify_interval = 300;
}

abbrev pub fresh : Store Value
fresh = record { db = fresh_database time; health = healthy }

abbrev pub request : KeyedRequest
request = record {
  auditor_id = codes "alice";
  key = codes "k1";
  body_sha256 = codes "00000000000000000000000000000000000000000000000000000000000000aa";
  created_at = time;
  unix_now = 1000;
  ttl_seconds = 86400;
}

abbrev pub mark : ℕ → UpstreamHighWater
mark version = record {
  key_id = codes "up";
  version = version;
  log_size = 1;
  head = genesis;
  merkle_root = genesis;
  updated_at = time;
}
