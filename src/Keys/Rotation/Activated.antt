-- ===== src/Keys/Rotation/Activated.antt =====
-- `activate_rotation` of src/csk_registry/keys.py: what it leaves in the data home.
use curator_skill_registry.Base.{◌≡◌, Bool, List, none, Text, ℕ, ok}
use curator_skill_registry.Signing.PublicKey.{Base64}
use curator_skill_registry.Signing.Key.{Ed25519}
use curator_skill_registry.Keys.{KeyProvider, Home}
use curator_skill_registry.Keys.Rotation.{public_keys}
use curator_skill_registry.Keys.Rotation.Retained.{Retains}

module _ (base64 : Base64) (float_is : Text → ℕ → Bool) (ed : Ed25519)
    (provider : KeyProvider ed.Private) where
  -- after an activation: nothing is staged, `staged` is the active key, and the public keys that
  -- were listed still are
  unfoldable pub Activated : List Text → ed.Private → Home → Type 0
  Activated values staged home =
      (home.next ≡ none)
      × (provider.load home.active ≡ ok staged)
      × Retains base64 float_is ed provider values
          (public_keys base64 float_is ed provider home staged)
