-- ===== src/Bundle/Validated.antt =====
-- Values that pass the validation of src/csk_registry/protocol.py are the dicts that come back.
use curator_skill_registry.Base.{
  ℕ, ◌≡◌, refl, ap, Bool, true, Option, none, some, Text, eq_of_text_eq, Ensures, Ensures-err,
  ensures_rules,
}
use curator_skill_registry.Json.{Value, null, bool, int, float, str, arr, obj}
use curator_skill_registry.Signing.PublicKey.{Base64}
use curator_skill_registry.Signing.Key.{is_text}
use curator_skill_registry.Protocol.Patterns.{Unicode}
use curator_skill_registry.Protocol.Records.{validate_record, validate_snapshot}

pub is_text-eq : (o : Option Value) (t : Text) → is_text o t ≡ true → o ≡ some (str t)
unfolding is_text
is_text-eq none t h = cc
is_text-eq (some (str s)) t h = ap (λ s. some (str s)) (eq_of_text_eq s t h)
is_text-eq (some null) t h = cc
is_text-eq (some (bool b)) t h = cc
is_text-eq (some (int n)) t h = cc
is_text-eq (some (float f)) t h = cc
is_text-eq (some (arr xs)) t h = cc
is_text-eq (some (obj fs)) t h = cc

module _ (base64 : Base64) (unicode : Unicode) where
  -- What passes the validation is a dict, the one that comes back.
  pub validate_record-obj :
      (value : Value) → Ensures (λ body. value ≡ obj body) (validate_record base64 unicode value)
  unfolding validate_record
  validate_record-obj (obj body) = search (ensures_rules, refl {a = obj body}) depth 16
  validate_record-obj null = Ensures-err _
  validate_record-obj (bool b) = Ensures-err _
  validate_record-obj (int n) = Ensures-err _
  validate_record-obj (float f) = Ensures-err _
  validate_record-obj (str t) = Ensures-err _
  validate_record-obj (arr xs) = Ensures-err _

module _ (base64 : Base64) (float_eq : Text → ℕ → Bool) where
  pub validate_snapshot-obj :
      (value : Value) → Ensures (λ body. value ≡ obj body) (validate_snapshot base64 float_eq value)
  unfolding validate_snapshot
  validate_snapshot-obj (obj body) = search (ensures_rules, refl {a = obj body}) depth 16
  validate_snapshot-obj null = Ensures-err _
  validate_snapshot-obj (bool b) = Ensures-err _
  validate_snapshot-obj (int n) = Ensures-err _
  validate_snapshot-obj (float f) = Ensures-err _
  validate_snapshot-obj (str t) = Ensures-err _
  validate_snapshot-obj (arr xs) = Ensures-err _
