-- ===== src/Limits/Windows.antt =====
-- What the limiter promises: no more requests than its limit in a window, and no more keys than
-- its bound.
use curator_skill_registry.Base.{
  ℕ, suc, zero, ◌+◌, ◌≤◌, ◌≡◌, List, [], ◌∷◌, some, Text, text_eq, text_eq_refl, ltb, leb, All,
  length, arith, subst, Bool-cases, Option-cases, inl, inr,
}
use curator_skill_registry.Limits.{
  Entry, FixedWindowLimiter, find, set, open_windows, oldest, drop_key, evict, bound_entries,
  current, allow, window, expired,
}

length-drop_key : (key : Text) (es : List Entry) → length (drop_key key es) ≤ length es
unfolding drop_key
length-drop_key key [] = omega arith
length-drop_key key (e ∷ es) = ground (arith, length-drop_key key es)

length-drop_key_more :
    (key : Text) (e x : Entry) (es : List Entry)
    → length (drop_key key (e ∷ x ∷ es)) ≤ 1 + length (drop_key key (e ∷ es))
unfolding drop_key
length-drop_key_more key e x es = ground arith

length-drop_key_first :
    (key : Text) (e : Entry) (es : List Entry)
    → length (drop_key key (e ∷ es)) ≤ 1 + length (drop_key key es)
unfolding drop_key
length-drop_key_first key e es = ground arith

-- Dropping the oldest key shortens the list.
length-drop_oldest :
    (e : Entry) (es : List Entry) → length (drop_key (oldest e es).key (e ∷ es)) ≤ length es
unfolding oldest
length-drop_oldest e [] = (unfold drop_key in rw (text_eq_refl e.key) (omega arith))
length-drop_oldest e (x ∷ xs) = elim (Bool-cases (ltb x.used e.used)) [
  | inl h ↦
      rw (oldest, h)
        (omega (arith, length-drop_key_first (oldest x xs).key e (x ∷ xs), length-drop_oldest x xs))
  | inr h ↦
      rw (oldest, h)
        (omega (arith, length-drop_key_more (oldest e xs).key e x xs, length-drop_oldest e xs))
]

evict-bound :
    (f max_keys : ℕ) (es : List Entry) → length es ≤ f → length (evict f max_keys es) ≤ max_keys
unfolding evict
evict-bound zero max_keys es h = omega (arith, h)
evict-bound (suc f) max_keys [] h = omega arith
evict-bound (suc f) max_keys (e ∷ es) h = elim (Bool-cases (ltb max_keys (length (e ∷ es)))) [
  | inl more ↦ rw more (
      evict-bound f max_keys (drop_key (oldest e es).key (e ∷ es))
        (omega (arith, h, length-drop_oldest e es)))
  | inr few ↦ rw few (ground arith)
]

bound_entries-bound :
    (l : FixedWindowLimiter) (now : ℕ) → length (bound_entries l now).entries ≤ l.max_keys
unfolding bound_entries
bound_entries-bound l now = elim (Bool-cases (leb (length l.entries) l.max_keys)) [
  | inl few ↦ rw (bound_entries, few) (ground arith)
  | inr more ↦
      rw (bound_entries, more)
        (evict-bound _ l.max_keys (open_windows now (window l) l.entries) (omega arith))
]

length-set_known :
    (e : Entry) (es : List Entry) {x : Entry}
    → find e.key es ≡ some x
    → length (set e es) ≡ length es
unfolding find set
length-set_known e [] h = cc
length-set_known e (y ∷ ys) {x} h = elim (Bool-cases (text_eq y.key e.key)) [
  | inl k ↦ rw k (omega arith)
  | inr k ↦ rw k (omega (arith, length-set_known e ys (rw (find, k) at h)))
]

-- An entry that counts something stands in the table.
current-known :
    (l : FixedWindowLimiter) (key : Text) (instant : ℕ)
    → 1 ≤ (current l key instant).count
    → (x : Entry) × (find (current l key instant).key l.entries ≡ some x)
unfolding current
current-known l key instant h = elim (Option-cases (find key l.entries)) [
  | inl e ↦ absurd (let counted = rw (current, e) at h in omega (arith, counted))
  | inr (x, e) ↦ elim (Bool-cases (expired (window l) x.start instant)) [
    | inl k ↦ (x, rw (current, e, k) e)
    | inr k ↦ (x, rw (current, e, k) e)
  ]
]

-- No more keys than the bound, and no entry that counts more than the limit.
pub record IsWithin (l : FixedWindowLimiter) : Type 0 where
  pub keys : length l.entries ≤ l.max_keys
  pub counts : All (λ e. e.count ≤ l.requests) l.entries

All-set : (P : Entry → Type 0) (e : Entry) (es : List Entry) → P e → All P es → All P (set e es)
unfolding set
All-set P e [] p h = (p, tt)
All-set P e (x ∷ xs) p h = elim (Bool-cases (text_eq x.key e.key)) [
  | inl k ↦ rw (set, k) (p, h.1)
  | inr k ↦ rw (set, k) (h.0, All-set P e xs p h.1)
]

All-drop_key :
    (P : Entry → Type 0) (key : Text) (es : List Entry) → All P es → All P (drop_key key es)
unfolding drop_key
All-drop_key P key [] h = tt
All-drop_key P key (x ∷ xs) h = elim (Bool-cases (text_eq x.key key)) [
  | inl k ↦ rw (drop_key, k) (All-drop_key P key xs h.1)
  | inr k ↦ rw (drop_key, k) (h.0, All-drop_key P key xs h.1)
]

All-open_windows :
    (P : Entry → Type 0) (now window : ℕ) (es : List Entry)
    → All P es
    → All P (open_windows now window es)
unfolding open_windows
All-open_windows P now window [] h = tt
All-open_windows P now window (x ∷ xs) h = elim (Bool-cases (expired window x.start now)) [
  | inl k ↦ rw (open_windows, k) (All-open_windows P now window xs h.1)
  | inr k ↦ rw (open_windows, k) (h.0, All-open_windows P now window xs h.1)
]

All-evict :
    (P : Entry → Type 0) (f max_keys : ℕ) (es : List Entry) → All P es → All P (evict f max_keys es)
unfolding evict
All-evict P zero max_keys es h = h
All-evict P (suc f) max_keys [] h = tt
All-evict P (suc f) max_keys (e ∷ es) h = elim (Bool-cases (ltb max_keys (length (e ∷ es)))) [
  | inl k ↦ rw (evict, k) (All-evict P f max_keys _ (All-drop_key P (oldest e es).key (e ∷ es) h))
  | inr k ↦ rw (evict, k) h
]

bound_entries-IsWithin :
    (l : FixedWindowLimiter) (now : ℕ)
    → All (λ e. e.count ≤ l.requests) l.entries
    → IsWithin (bound_entries l now)
unfolding bound_entries
bound_entries-IsWithin l now h = elim (Bool-cases (leb (length l.entries) l.max_keys)) [
  | inl few ↦ rw (bound_entries, few) (record { keys = ground arith; counts = h })
  | inr more ↦
      let live = open_windows now (window l) l.entries in
      rw (bound_entries, more)
        (record {
          keys = evict-bound (length live) l.max_keys live (omega arith);
          counts =
              All-evict (λ e. e.count ≤ l.requests) (length live) l.max_keys live
                (All-open_windows (λ e. e.count ≤ l.requests) now (window l) l.entries h);
        })
]

find-All :
    (P : Entry → Type 0) (key : Text) (es : List Entry) {e : Entry}
    → All P es
    → find key es ≡ some e
    → P e
unfolding find
find-All P key [] h k = cc
find-All P key (x ∷ xs) {e} h k = elim (Bool-cases (text_eq x.key key)) [
  | inl same ↦ let found = rw (find, same) at k in let here : x ≡ e = cc in subst P here h.0
  | inr other ↦ find-All P key xs h.1 (rw (find, other) at k)
]

current-count :
    (l : FixedWindowLimiter) (key : Text) (instant : ℕ)
    → All (λ e. e.count ≤ l.requests) l.entries
    → (current l key instant).count ≤ l.requests
unfolding current
current-count l key instant h = elim (Option-cases (find key l.entries)) [
  | inl e ↦ rw (current, e) (omega arith)
  | inr (x, e) ↦
      let counted = find-All (λ y. y.count ≤ l.requests) key l.entries h e in
      elim (Bool-cases (expired (window l) x.start instant)) [
        | inl k ↦ rw (current, e, k) (omega arith)
        | inr k ↦ rw (current, e, k) counted
      ]
]

-- For a limit of at least one request, a call of `allow` keeps the table within its number of
-- keys and every count within the limit, whether or not the request passes.
pub allow-IsWithin :
    (l : FixedWindowLimiter) (key : Text) (instant : ℕ)
    → 1 ≤ l.requests
    → IsWithin l
    → IsWithin (allow l key instant).1
unfolding allow
allow-IsWithin l key instant one w =
    let e = current l key instant in
    let counts = λ (r : Entry) (h : r.count ≤ l.requests).
      All-set (λ x. x.count ≤ l.requests) r l.entries h w.counts in
    elim (Bool-cases (leb l.requests e.count)) [
      | inl full ↦
          let (x, known) = current-known l key instant (ground (arith, one, full)) in
          rw (allow, full)
            (record {
              keys = omega (arith, w.keys, length-set_known e l.entries known);
              counts = counts e (current-count l key instant w.counts);
            })
      | inr free ↦
          let grown : Entry = record e { count = e.count + 1 } in
          rw (allow, free)
            (bound_entries-IsWithin (record l { entries = set grown l.entries }) instant
              (counts grown (ground (arith, free))))
    ]
