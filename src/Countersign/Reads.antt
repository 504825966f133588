-- ===== src/Countersign/Reads.antt =====
-- What a countersigned record says under the keys that signing does not touch.
use curator_skill_registry.Base.{
  ◌≡◌, sym, ap, ◌∙◌, false, Text, codes, text_eq, ok, ok-injective, bind-eq-ok,
}
use curator_skill_registry.Json.{Value, Fields, obj, get, put, without}
use curator_skill_registry.Json.Laws.{get-put, get-without}
use curator_skill_registry.Signing.{Env, sig_key, canonical_bytes}
use curator_skill_registry.Signing.PublicKey.{Base64}
use curator_skill_registry.Signing.Key.{Ed25519, sign_record, envelope}
use curator_skill_registry.Countersign.{endorsed}

pub get-put_other :
    (k j : Text) (v : Value) (fs : Fields) → text_eq k j ≡ false → get j (put k v fs) ≡ get j fs
get-put_other k j v fs e = get-put k j v fs ∙ rw e

pub get-without_other :
    (k j : Text) (fs : Fields) → text_eq k j ≡ false → get j (without k fs) ≡ get j fs
get-without_other k j fs e = get-without k j fs ∙ rw e

pub get-endorsed :
    (endorser key : Text) (body bare : Fields)
    → text_eq (codes "endorsements") key ≡ false
    → get key (endorsed endorser body bare) ≡ get key bare
unfolding endorsed
get-endorsed endorser key body bare e = get-put_other (codes "endorsements") key _ bare e

module _ (base64 : Base64) (ed : Ed25519) {Doc : Type 0} (env : Env Doc) where
  pub get-sign_record :
      (k : ed.Private) (key : Text) (body : Fields) {signed : Fields}
      → sign_record base64 ed env k body ≡ ok signed
      → text_eq sig_key key ≡ false
      → get key signed ≡ get key body
  unfolding sign_record
  get-sign_record k key body {signed} h e =
      let bare = without sig_key body in
      let (m, _, done) = bind-eq-ok (canonical_bytes env bare) _ h in
      ap (get key) (sym (ok-injective done))
      ∙ get-put_other sig_key key (obj (envelope base64 ed env k m)) bare e
      ∙ get-without_other sig_key key body e
