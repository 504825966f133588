-- ===== src/Limits/Retry.antt =====
-- What the Retry-After of a refused request is worth: when the same key passes again.
use curator_skill_registry.Base.{
  ℕ, ◌+◌, ◌*◌, ◌≤◌, ◌<◌, ◌≡◌, refl, true, false, List, [], ◌∷◌, some, Text, text_eq, text_eq_refl,
  leb, arith, subst, Bool-cases, Option-cases, inl, inr,
}
use curator_skill_registry.Limits.{
  Entry, FixedWindowLimiter, find, set, current, allow, window, expired, remaining, second,
}

find-set : (e : Entry) (es : List Entry) → find e.key (set e es) ≡ some e
unfolding find set
find-set e [] = rw (text_eq_refl e.key) refl
find-set e (x ∷ xs) = elim (Bool-cases (text_eq x.key e.key)) [
  | inl k ↦ rw (set, k, find, text_eq_refl e.key) refl
  | inr k ↦ rw (set, k, find, k) (find-set e xs)
]

-- The entry of an instant is one of the key, and one that counts something has an open window.
current-key :
    (l : FixedWindowLimiter) (key : Text) (instant : ℕ) → (current l key instant).key ≡ key
unfolding current
current-key l key instant = elim (Option-cases (find key l.entries)) [
  | inl e ↦ rw (current, e) refl
  | inr (x, e) ↦ elim (Bool-cases (expired (window l) x.start instant)) [
    | inl k ↦ rw (current, e, k) refl
    | inr k ↦ rw (current, e, k) refl
  ]
]

-- The entry that a known key has at a later instant.
current-expired :
    (l : FixedWindowLimiter) (key : Text) (later : ℕ) (e : Entry)
    → find key l.entries ≡ some e
    → window l + e.start ≤ later
    → (current l key later).count ≡ 0
unfolding current expired
current-expired l key later e h k =
    let over : expired (window l) e.start later ≡ true = ground arith in rw (current, h, over) refl

allow-passes :
    (l : FixedWindowLimiter) (key : Text) (instant : ℕ)
    → (current l key instant).count < l.requests
    → (allow l key instant).0.allowed ≡ true
unfolding allow
allow-passes l key instant h =
    let free : leb l.requests (current l key instant).count ≡ false = ground arith in rw free refl

-- What a refusal tells: the limit is reached, and the entry of the key stays.
record Refused (l : FixedWindowLimiter) (key : Text) (instant : ℕ) : Type 0 where
  full : l.requests ≤ (current l key instant).count
  told :
      (allow l key instant).0.retry_after
      ≡ remaining (window l) (current l key instant).start instant
  limit : (allow l key instant).1.requests ≡ l.requests
  same_window : window (allow l key instant).1 ≡ window l
  entry : find key (allow l key instant).1.entries ≡ some (current l key instant)

allow-Refused :
    (l : FixedWindowLimiter) (key : Text) (instant : ℕ)
    → (allow l key instant).0.allowed ≡ false
    → Refused l key instant
unfolding allow
allow-Refused l key instant h = elim (Bool-cases (leb l.requests (current l key instant).count)) [
  | inl full ↦ record {
    full = ground arith;
    told = rw (allow, full) refl;
    limit = rw (allow, full) refl;
    same_window = rw (allow, full) refl;
    entry =
        rw (allow, full)
          (subst
            (λ k. find k (set (current l key instant) l.entries) ≡ some (current l key instant))
            (current-key l key instant) (find-set (current l key instant) l.entries));
  }
  | inr free ↦ absurd (ground arith)
]

-- The seconds cover what is left of an open window, and one fewer does not.
remaining-covers :
    (window start instant : ℕ) → window + start ≤ instant + remaining window start instant * second
unfolding remaining
remaining-covers window start instant = omega arith

-- For a limit of at least one request: when a request was refused, the next request under the
-- same key passes at any instant that is at least as many seconds later as the refusal told.
pub allow-retried :
    (l : FixedWindowLimiter) (key : Text) (instant later : ℕ)
    → 1 ≤ l.requests
    → (allow l key instant).0.allowed ≡ false
    → instant + (allow l key instant).0.retry_after * second ≤ later
    → (allow (allow l key instant).1 key later).0.allowed ≡ true
allow-retried l key instant later one h wait =
    let r = allow-Refused l key instant h in
    let e = current l key instant in
    let l' = (allow l key instant).1 in
    let cover = remaining-covers (window l) e.start instant in
    let over : window l' + e.start ≤ later = omega (arith, cover, wait, r.told, r.same_window) in
    let none_left = current-expired l' key later e r.entry over in
    allow-passes l' key later (omega (arith, none_left, r.limit, one))
