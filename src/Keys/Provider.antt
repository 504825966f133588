-- ===== src/Keys/Provider.antt =====
-- `FileKeyProvider` of src/csk_registry/keys.py: PEM files, encrypted where a passphrase is set.
use curator_skill_registry.Base.{
  ◌≡◌, refl, subst, Bool, true, false, ◌&&◌, ◌||◌, [], ◌∷◌, Option, none, some, codes, Bytes, ◌==◌,
  if◌then◌else◌, Outcome, ok, err, ok-injective,
}
use curator_skill_registry.Keys.{
  KeysError, KeyProvider, LoadsStored, empty_passphrase, passphrase_missing, wrong_passphrase,
  unavailable_key, malformed_key,
}

-- `load_key` and `export_key_pem` of src/csk_registry/signing.py, which only call the package
-- cryptography; `none` is an exception of it. The passphrase is `none` for a plain PEM.
pub record Pem (Private : Type 0) : Type 0 where
  pub load_key : Bytes → Option Bytes → Option Private
  pub export_key_pem : Private → Option Bytes → Bytes

abbrev pub marker : Bytes
marker = codes "ENCRYPTED PRIVATE KEY"

-- `marker in pem`
unfoldable pub starts : Bytes → Bytes → Bool
starts [] pem = true
starts (c ∷ cs) [] = false
starts (c ∷ cs) (d ∷ ds) = c == d && starts cs ds

unfoldable pub contains : Bytes → Bytes → Bool
contains wanted [] = starts wanted []
contains wanted (d ∷ ds) = starts wanted (d ∷ ds) || contains wanted ds

-- The header of a PEM tells whether it is encrypted, and loading gives back what was exported.
pub record IsPkcs8 {Private : Type 0} (pem : Pem Private) : Type 0 where
  pub plain-marker : (key : Private) → contains marker (pem.export_key_pem key none) ≡ false
  pub encrypted-marker :
      (key : Private) (c : _) (secret : Bytes)
      → contains marker (pem.export_key_pem key (some (c ∷ secret))) ≡ true
  pub load-plain : (key : Private) → pem.load_key (pem.export_key_pem key none) none ≡ some key
  pub load-encrypted :
      (key : Private) (c : _) (secret : Bytes)
      → pem.load_key (pem.export_key_pem key (some (c ∷ secret))) (some (c ∷ secret)) ≡ some key

unfoldable pub or_raise : {A : Type 0} → KeysError → Option A → Outcome KeysError A
or_raise e none = err e
or_raise e (some a) = ok a

module _ {Private : Type 0} (pem : Pem Private) where
  unfoldable pub load_encrypted : Option Bytes → Bytes → Outcome KeysError Private
  load_encrypted none content = err passphrase_missing
  load_encrypted (some secret) content =
      or_raise wrong_passphrase (pem.load_key content (some secret))

  unfoldable pub load_content : Option Bytes → Option Bytes → Outcome KeysError Private
  load_content passphrase none = err unavailable_key
  load_content passphrase (some content) =
      if contains marker content
      then load_encrypted passphrase content
      else or_raise malformed_key (pem.load_key content none)

  -- `self.load(path)`
  unfoldable pub file_load : Option Bytes → Option Bytes → Outcome KeysError Private
  file_load (some []) content = err empty_passphrase
  file_load none content = load_content none content
  file_load (some (c ∷ secret)) content = load_content (some (c ∷ secret)) content

  -- `self.store(path, key)`
  unfoldable pub file_store : Option Bytes → Private → Outcome KeysError Bytes
  file_store (some []) key = err empty_passphrase
  file_store none key = ok (pem.export_key_pem key none)
  file_store (some (c ∷ secret)) key = ok (pem.export_key_pem key (some (c ∷ secret)))

  -- `FileKeyProvider(passphrase)`
  abbrev pub FileKeyProvider : Option Bytes → KeyProvider Private
  FileKeyProvider passphrase = record { load = file_load passphrase; store = file_store passphrase }

  module _ (good : IsPkcs8 pem) where
    file_load-store :
        (passphrase : Option Bytes) (key : Private) {content : Bytes}
        → file_store passphrase key ≡ ok content
        → file_load passphrase (some content) ≡ ok key
    unfolding file_load file_store load_content load_encrypted or_raise
    file_load-store none key h =
        subst (λ content. load_content none (some content) ≡ ok key) (ok-injective h)
          (rw (load_content, good.plain-marker key, good.load-plain key) refl)
    file_load-store (some []) key h = cc
    file_load-store (some (c ∷ secret)) key h =
        subst (λ content. load_content (some (c ∷ secret)) (some content) ≡ ok key) (ok-injective h)
          (rw (load_content, good.encrypted-marker key c secret, good.load-encrypted key c secret)
            refl)

    -- A key that the file provider stored is the one that it loads, under any passphrase.
    pub FileKeyProvider-LoadsStored :
        (passphrase : Option Bytes) → LoadsStored (FileKeyProvider passphrase)
    FileKeyProvider-LoadsStored passphrase = record {
      load-store = λ key h. file_load-store passphrase key h;
    }
