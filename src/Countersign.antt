-- ===== src/Countersign.antt =====
-- `_countersign` of src/csk_registry/app.py and the loop of `_countersign_imports` of
-- src/csk_registry/bundle.py: the record that the registry signs carries the signature that it came
-- with as an endorsement.
pub mod Reads
pub mod Appends
pub mod Imports
pub mod Fingerprints
use curator_skill_registry.Base.{
  List, [], ◌∷◌, Option, none, some, Text, codes, ◌++◌, Outcome, ok, err, ◌>>=◌, hex,
}
use curator_skill_registry.Json.{
  Value, Fields, ℤ, pos, null, int, str, arr, obj, end, get, put, without, items, of_list,
}
use curator_skill_registry.Json.Canonical.{CanonicalError}
use curator_skill_registry.Signing.{Env, sig_key}
use curator_skill_registry.Signing.PublicKey.{Base64}
use curator_skill_registry.Signing.Key.{Ed25519, sign_record}

-- `record.get(key)` as a value, and `record.get(key, default)`
unfoldable pub value_or : Value → Option Value → Value
value_or default none = default
value_or default (some v) = v

-- `{"endorser": endorser, "sig": record.get("sig")}`
unfoldable pub endorsement : Text → Fields → Value
endorsement endorser body =
    obj (put (codes "endorser") (str endorser) (put sig_key (value_or null (get sig_key body)) end))

-- `[*existing, endorsement] if isinstance(existing, list) else [endorsement]`
unfoldable pub extended : Option Value → Value → Value
extended (some (arr existing)) e = arr (of_list (items existing ++ e ∷ []))
extended _ e = arr (of_list (e ∷ []))

-- the body of the new record, from one without its signature
unfoldable pub endorsed : Text → Fields → Fields → Fields
endorsed endorser body bare =
    put (codes "endorsements")
      (extended (get (codes "endorsements") bare) (endorsement endorser body)) bare

-- The KeyError and the TypeError of a subscript, and the error of a canonical form.
pub data ImportError : Type 0 where
  missing_field : ImportError
  not_signable : CanonicalError → ImportError

unfoldable pub field_of : Text → Fields → Outcome ImportError Value
field_of key body = elim (get key body) [ none ↦ err missing_field | some v ↦ ok v ]

-- `record["sig"]["signature"]`
unfoldable pub signature_of : Value → Outcome ImportError Value
signature_of (obj envelope) = field_of (codes "signature") envelope
signature_of _ = err missing_field

unfoldable pub signed_or : {A : Type 0} → Outcome CanonicalError A → Outcome ImportError A
signed_or (ok a) = ok a
signed_or (err e) = err (not_signable e)

module _ (base64 : Base64) (ed : Ed25519) {Doc : Type 0} (env : Env Doc) where
  -- `_countersign(record, signing_key, endorser=...)`
  unfoldable pub countersign : ed.Private → Text → Fields → Outcome CanonicalError Fields
  countersign key endorser body =
      let bare =
        put (codes "schema_version") (value_or (int (pos 1)) (get (codes "schema_version") body))
          (without sig_key body) in
      sign_record base64 ed env key (endorsed endorser body bare)

  -- the digest of the five fields
  unfoldable pub values_digest : List Value → Text
  values_digest vs = hex (env.sha256 (env.utf8 (env.dumps (arr (of_list vs)))))

  -- one turn of the loop of `_countersign_imports`
  unfoldable pub countersign_import : ed.Private → Fields → Outcome ImportError (Text × Fields)
  countersign_import key body = do
    let upstream = endorsed (codes "upstream-import") body (without sig_key body)
    sig ← field_of sig_key body
    signature ← signature_of sig
    identity ← field_of (codes "source_identity") body
    commit ← field_of (codes "commit") body
    content ← field_of (codes "content_sha256") body
    status ← field_of (codes "status") body
    signed ← signed_or (sign_record base64 ed env key upstream)
    ok (values_digest (identity ∷ commit ∷ content ∷ status ∷ signature ∷ []), signed)

  -- `_countersign_imports(signing_key, verified)`
  unfoldable pub countersign_imports :
      ed.Private → List Fields → Outcome ImportError (List (Text × Fields))
  countersign_imports key [] = ok []
  countersign_imports key (body ∷ bodies) = do
    one ← countersign_import key body
    rest ← countersign_imports key bodies
    ok (one ∷ rest)
