-- ===== src/Tests/Tokens.antt =====
-- Auditors and a token on concrete inputs.
use curator_skill_registry.Base.{
  ◌≡◌, refl, [], ◌∷◌, ◌++◌, some, ok, Text, codes, text_eq, hex, hex256, arith,
}
use curator_skill_registry.Signing.PublicKey.{Base64, parse_public_key, remove_prefix}
use curator_skill_registry.Auth.{
  Auditor, auditor_tokens, check_auditors, check_auditor, valid_auditor_id, is_some, resolve,
}
use curator_skill_registry.Auth.Tokens.{resolve-auditor_tokens}
use curator_skill_registry.Tests.Sample.{digest}

-- a codec that leaves texts as they are
abbrev plain_codec : Base64
plain_codec = record { decode = λ t. some t; encode = λ b. b }

abbrev token : Text
token = codes "a-token-of-enough-characters"

abbrev auditor : Text → Text → Auditor
auditor name secret = record {
  auditor_id = name;
  org = [];
  public_pinned = codes "ed25519:0123456789abcdef0123456789abcdef";
  token_sha256 = hex (digest secret);
}

abbrev alice : Auditor
alice = auditor (codes "alice") (codes "another-token-of-enough-characters")

abbrev bob : Auditor
bob = auditor (codes "bob") token

accepted :
    auditor_tokens plain_codec ((alice ∷ []) ++ bob ∷ [])
    ≡ ok (record { by_hash = alice ∷ bob ∷ [] })
unfolding auditor_tokens check_auditors check_auditor valid_auditor_id is_some parse_public_key
    remove_prefix text_eq hex hex256
accepted = refl

resolve-auditor_tokens_example :
    resolve digest (λ t. t) (record { by_hash = alice ∷ bob ∷ [] }) token ≡ some bob
resolve-auditor_tokens_example =
    resolve-auditor_tokens digest (λ t. t) plain_codec (alice ∷ []) bob []
      (record { by_hash = alice ∷ bob ∷ [] }) token accepted refl (omega arith)
