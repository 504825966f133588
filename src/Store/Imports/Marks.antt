-- ===== src/Store/Imports/Marks.antt =====
-- The high-water marks of the upstream keys: what the comparison of an offer decides, and that no
-- import moves a mark back.
use curator_skill_registry.Base.{
  ◌≡◌, ◌∙◌, ◌≢◌, ◌<◌, ◌↔◌, inl, inr, refl, sym, Bool, true, false, List, [], ◌∷◌, Option, none,
  some, Text, text_eq, text_eq_refl, text_eq_iff, Outcome, err, subst, ltb, eq_of_text_eq, ◌==◌, ok,
  arith, Bool-cases,
}
use curator_skill_registry.Store.{
  UpstreamHighWater, StoreError, high_water_conflict, import_upstream_rollback,
  import_upstream_inconsistent,
}
use curator_skill_registry.Store.Imports.{
  same_body, upstream_offer_diagnostic, high_water, drop_high_water, put_high_water, ImportOutcome,
  advanced, noop, accepted_older, import_decision, require_offer,
}

-- Two marks tell of the same log.
pub record Agrees (c o : UpstreamHighWater) : Type 0 where
  pub head : o.head ≡ c.head
  pub merkle_root : o.merkle_root ≡ c.merkle_root
  pub log_size : o.log_size ≡ c.log_size

-- What the import contract answers to an offer, from the mark that stands; the Boolean is the
-- operator's override.
pub data Decided
    : Option UpstreamHighWater
      → UpstreamHighWater
      → Bool
      → Outcome StoreError ImportOutcome
      → Type 0 where
  first : {o : UpstreamHighWater} {older : Bool} → Decided none o older (ok advanced)
  above :
      {c o : UpstreamHighWater} {older : Bool}
      → c.version < o.version
      → Decided (some c) o older (ok advanced)
  equal :
      {c o : UpstreamHighWater} {older : Bool}
      → o.version ≡ c.version
      → Agrees c o
      → Decided (some c) o older (ok noop)
  diverged :
      {c o : UpstreamHighWater} {older : Bool}
      → o.version ≡ c.version
      → ¬ Agrees c o
      → Decided (some c) o older (err (high_water_conflict import_upstream_inconsistent c o))
  overridden :
      {c o : UpstreamHighWater}
      → o.version < c.version
      → Decided (some c) o true (ok accepted_older)
  rolled_back :
      {c o : UpstreamHighWater}
      → o.version < c.version
      → Decided (some c) o false (err (high_water_conflict import_upstream_rollback c o))

-- `b` may stand where `a` stood.
pub data Succeeds (a b : UpstreamHighWater) : Type 0 where
  later : a.version < b.version → Succeeds a b
  same : a.version ≡ b.version → same_body a b ≡ true → Succeeds a b

pub same_body_refl : (m : UpstreamHighWater) → same_body m m ≡ true
unfolding same_body
same_body_refl m = rw (text_eq_refl m.head, text_eq_refl m.merkle_root) (ground arith)

same_body_iff : (c o : UpstreamHighWater) → (same_body c o ≡ true) ↔ Agrees c o
unfolding same_body
same_body_iff c o = (
  λ h. record {
    head = eq_of_text_eq o.head c.head (ground (arith, h));
    merkle_root = eq_of_text_eq o.merkle_root c.merkle_root (ground (arith, h));
    log_size = ground (arith, h);
  },
  λ a.
      let heads = text_eq_iff o.head c.head in
      let roots = text_eq_iff o.merkle_root c.merkle_root in
      ground (arith, a.head, a.merkle_root, a.log_size, heads.1 a.head, roots.1 a.merkle_root),
)

Decided-import_decision :
    {current : Option UpstreamHighWater} {offered : UpstreamHighWater} {older : Bool}
    {answer : Outcome StoreError ImportOutcome}
    → Decided current offered older answer
    → import_decision current offered older ≡ answer
unfolding import_decision upstream_offer_diagnostic
Decided-import_decision first = refl
Decided-import_decision (above l) = ground arith
Decided-import_decision (equal {c} {o} e b) = let same = (same_body_iff c o).1 b in ground arith
Decided-import_decision (diverged {c} {o} e b) =
    let other : same_body c o ≡ false = elim (Bool-cases (same_body c o)) [
      | inl h ↦ absurd (b ((same_body_iff c o).0 h))
      | inr h ↦ h
    ] in
    ground arith
Decided-import_decision (overridden l) = ground arith
Decided-import_decision (rolled_back l) = ground arith

decided :
    {current : Option UpstreamHighWater} {o : UpstreamHighWater} {older : Bool}
    {answer : Outcome StoreError ImportOutcome}
    → Decided current o older answer
    → Decided current o older (import_decision current o older)
decided {current} {o} {older} d =
    subst (Decided current o older) (sym (Decided-import_decision d)) d

below-Decided :
    (c o : UpstreamHighWater) (older : Bool)
    → o.version < c.version
    → Decided (some c) o older (import_decision (some c) o older)
below-Decided c o true l = decided (overridden l)
below-Decided c o false l = decided (rolled_back l)

import_decision-Decided :
    (current : Option UpstreamHighWater) (offered : UpstreamHighWater) (older : Bool)
    → Decided current offered older (import_decision current offered older)
import_decision-Decided none o older = decided first
import_decision-Decided (some c) o older = elim (Bool-cases (ltb o.version c.version)) [
  | inl l ↦ below-Decided c o older (ground arith)
  | inr l ↦ elim (Bool-cases (o.version == c.version)) [
    | inl e ↦ elim (Bool-cases (same_body c o)) [
      | inl b ↦ decided (equal (ground arith) ((same_body_iff c o).0 b))
      | inr b ↦ decided (diverged (ground arith) (λ a. let h = (same_body_iff c o).1 a in cc))
    ]
    | inr e ↦ decided (above (ground arith))
  ]
]

pub high_water-put_same :
    (m : UpstreamHighWater) (ms : List UpstreamHighWater)
    → high_water m.key_id (put_high_water m ms) ≡ some m
unfolding high_water put_high_water drop_high_water
high_water-put_same m [] = rw (text_eq_refl m.key_id)
high_water-put_same m (x ∷ xs) = ground (arith, high_water-put_same m xs)

pub high_water-put_other :
    (key_id : Text) (m : UpstreamHighWater) (ms : List UpstreamHighWater)
    → m.key_id ≢ key_id
    → high_water key_id (put_high_water m ms) ≡ high_water key_id ms
unfolding high_water put_high_water drop_high_water
high_water-put_other key_id m [] h = ground (arith, eq_of_text_eq m.key_id key_id)
high_water-put_other key_id m (x ∷ xs) h = ground (
  arith,
  high_water-put_other key_id m xs,
  eq_of_text_eq x.key_id m.key_id,
  eq_of_text_eq x.key_id key_id,
)

-- The comparison of an upstream offer gives an answer exactly when the import contract gives it:
-- a first offer or a greater version advances; an equal version with the same head, Merkle root
-- and size is a no-op, and with any other head, root or size it is refused as inconsistent; a
-- lower version is accepted under the override and refused as a rollback without it. A refusal
-- carries the standing mark and the offer.
pub import_decision_iff :
    (current : Option UpstreamHighWater) (offered : UpstreamHighWater) (older : Bool)
    (answer : Outcome StoreError ImportOutcome)
    → (import_decision current offered older ≡ answer) ↔ Decided current offered older answer
import_decision_iff current offered older answer = (
  λ h. subst (Decided current offered older) h (import_decision-Decided current offered older),
  Decided-import_decision,
)

-- No mark, or one that the new mark may follow.
abbrev pub Follows : Option UpstreamHighWater → Option UpstreamHighWater → Type 0
Follows none after = Unit
Follows (some a) none = ⊥
Follows (some a) (some b) = Succeeds a b

pub Follows-refl : (m : Option UpstreamHighWater) → Follows m m
Follows-refl none = tt
Follows-refl (some a) = same refl (same_body_refl a)

-- A mark put over one that it may follow, seen at any key.
pub Follows-put :
    (key_id : Text) (o : UpstreamHighWater) (ms : List UpstreamHighWater)
    → Follows (high_water o.key_id ms) (some o)
    → Follows (high_water key_id ms) (high_water key_id (put_high_water o ms))
Follows-put key_id o ms h = elim (Bool-cases (text_eq o.key_id key_id)) [
  | inl e ↦ let k = eq_of_text_eq _ _ e in rw (← k, high_water-put_same o ms) h
  | inr e ↦
      rw (high_water-put_other key_id o ms (λ k. ground (arith, text_eq_refl key_id)))
        (Follows-refl (high_water key_id ms))
]

pub Decided-Follows :
    {current : Option UpstreamHighWater} {o : UpstreamHighWater} {older : Bool}
    → Decided current o older (ok advanced)
    → Follows current (some o)
Decided-Follows first = tt
Decided-Follows (above l) = later l

pub require_offer-Follows :
    (current : Option UpstreamHighWater) (o : UpstreamHighWater)
    → require_offer current o ≡ ok tt
    → Follows current (some o)
unfolding require_offer upstream_offer_diagnostic
require_offer-Follows none o h = tt
require_offer-Follows (some c) o h = elim (Bool-cases (o.version == c.version)) [
  | inl e ↦ same (ground arith) (ground arith)
  | inr e ↦ later (ground arith)
]

same_body_trans :
    (a b c : UpstreamHighWater) → same_body a b ≡ true → same_body b c ≡ true → same_body a c ≡ true
unfolding same_body
same_body_trans a b c h k = ground (
  arith,
  eq_of_text_eq b.head a.head,
  eq_of_text_eq b.merkle_root a.merkle_root,
  eq_of_text_eq c.head b.head,
  eq_of_text_eq c.merkle_root b.merkle_root,
)

Succeeds-trans : {a b c : UpstreamHighWater} → Succeeds a b → Succeeds b c → Succeeds a c
Succeeds-trans (later h) (later k) = later (omega (arith, h, k))
Succeeds-trans (later h) (same k t) = later (omega (arith, h, k))
Succeeds-trans (same h s) (later k) = later (omega (arith, h, k))
Succeeds-trans {a} {b} {c} (same h s) (same k t) = same (h ∙ k) (same_body_trans a b c s t)

pub Follows-trans : (a b c : Option UpstreamHighWater) → Follows a b → Follows b c → Follows a c
Follows-trans none b c h k = tt
Follows-trans (some a) none c h k = absurd h
Follows-trans (some a) (some b) none h k = absurd k
Follows-trans (some a) (some b) (some c) h k = Succeeds-trans h k
