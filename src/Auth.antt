-- ===== src/Auth.antt =====
-- src/csk_registry/auth.py: the auditors that may submit, and the token that names one.
-- Reading them from their file is not modelled.
pub mod Tokens
use curator_skill_registry.Base.{
  ℕ, Bool, true, false, List, [], ◌∷◌, Option, none, some, Text, text_eq, Bytes, hex, hex256, ltb,
  leb, ◌==◌, ◌&&◌, ◌||◌, not, any, length, if◌then◌else◌, Outcome, ok, err, ◌>>=◌, ◌>>◌, ensure,
}
use curator_skill_registry.Signing.PublicKey.{Base64, parse_public_key}
use curator_skill_registry.Store.{StoreError, value_error}

pub record Auditor : Type 0 where
  pub auditor_id : Text
  pub org : Text
  pub public_pinned : Text
  pub token_sha256 : Text

-- `auditor_id` is not empty, not too long and free of control characters
unfoldable pub valid_auditor_id : Text → Bool
valid_auditor_id t =
    not (length t == 0) && leb (length t) 8192 && not (any (λ c. leb c 0x1f || c == 0x7f) t)

unfoldable pub is_some : {A : Type 0} → Option A → Bool
is_some none = false
is_some (some a) = true

-- `t in ts` of a set of texts
abbrev pub member : Text → List Text → Bool
member t ts = any (text_eq t) ts

-- the body of the loop of `__init__`, with the ids and digests seen so far
unfoldable pub check_auditor :
    Base64 → List Text → List Text → Auditor → Outcome StoreError (Unit {0})
check_auditor base64 ids digests a =
    ensure (valid_auditor_id a.auditor_id) value_error
    >> (ensure (leb (length a.org) 8192) value_error
        >> (ensure (is_some (parse_public_key base64 a.public_pinned)) value_error
            >> (ensure (hex256 a.token_sha256) value_error
                >> (ensure (not (member a.auditor_id ids)) value_error
                    >> ensure (not (member a.token_sha256 digests)) value_error))))

unfoldable pub check_auditors :
    Base64 → List Text → List Text → List Auditor → Outcome StoreError (Unit {0})
check_auditors base64 ids digests [] = ok tt
check_auditors base64 ids digests (a ∷ auditors) =
    check_auditor base64 ids digests a
    >> check_auditors base64 (a.auditor_id ∷ ids) (a.token_sha256 ∷ digests) auditors

-- `self._by_hash`, in the order of insertion
pub record AuditorTokens : Type 0 where
  pub by_hash : List Auditor

-- `AuditorTokens(auditors)`
unfoldable pub auditor_tokens : Base64 → List Auditor → Outcome StoreError AuditorTokens
auditor_tokens base64 auditors =
    check_auditors base64 [] [] auditors >> ok (record { by_hash = auditors })

-- the loop of `resolve` over the digests
unfoldable pub find_digest : Text → List Auditor → Option Auditor
find_digest digest [] = none
find_digest digest (a ∷ auditors) =
    if text_eq a.token_sha256 digest then some a else find_digest digest auditors

-- `resolve(token)`, with the digest function and `token.encode("utf-8")` as parameters
unfoldable pub resolve : (Bytes → Bytes) → (Text → Bytes) → AuditorTokens → Text → Option Auditor
resolve sha256 utf8 tokens token =
    if ltb (length token) 22 then none else find_digest (hex (sha256 (utf8 token))) tokens.by_hash
