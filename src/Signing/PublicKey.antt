-- ===== src/Signing/PublicKey.antt =====
-- `parse_public_key` of src/csk_registry/signing.py. The codec of Python's base64 is a parameter.
use curator_skill_registry.Base.{
  Option, none, some, Text, codes, text_eq, Bytes, length, drop, take, ◌==◌, ◌&&◌, if◌then◌else◌,
}

pub record Base64 : Type 0 where
  -- `base64.b64decode(t, validate=True)`; `none` is its error
  pub decode : Text → Option Bytes
  -- `base64.b64encode(b).decode("ascii")`
  pub encode : Bytes → Text

-- `value.removeprefix("ed25519:")`
unfoldable pub remove_prefix : Text → Text
remove_prefix value = if text_eq (take 8 value) (codes "ed25519:") then drop 8 value else value

-- `parse_public_key(value)`; `none` is its ValueError
unfoldable pub parse_public_key : Base64 → Text → Option Bytes
parse_public_key base64 value = elim (base64.decode (remove_prefix value)) [
  | none ↦ none
  | some raw ↦
      if length raw == 32 && text_eq (base64.encode raw) (remove_prefix value)
      then some raw
      else none
]
