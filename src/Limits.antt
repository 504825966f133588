-- ===== src/Limits.antt =====
-- src/csk_registry/limits.py: the rate limiter of fixed windows. Instants are natural numbers of
-- nanoseconds, in any order, since a thread reads the clock before it takes the lock; the dictionary
-- of entries is a list, newest key last.
pub mod Windows
pub mod Retry
use curator_skill_registry.Base.{
  ℕ, suc, zero, ◌+◌, ◌-◌, ◌*◌, ◌/◌, Bool, true, false, List, [], ◌∷◌, ◌++◌, Option, none, some,
  Text, text_eq, ltb, leb, ◌==◌, if◌then◌else◌, length, max,
}

-- `self._entries[key]`: the start of the window, the count in it and the last use
pub record Entry : Type 0 where
  pub key : Text
  pub start : ℕ
  pub count : ℕ
  pub used : ℕ

pub record FixedWindowLimiter : Type 0 where
  pub requests : ℕ
  pub window_seconds : ℕ
  pub max_keys : ℕ
  pub entries : List Entry

pub record RateDecision : Type 0 where
  pub allowed : Bool
  pub retry_after : ℕ

abbrev pub second : ℕ
second = 1000000000

-- `self.window_seconds` on the clock
abbrev pub window : FixedWindowLimiter → ℕ
window l = l.window_seconds * second

-- `instant - start >= window`, which is false for an instant before the start
unfoldable pub expired : ℕ → ℕ → ℕ → Bool
expired window start instant = leb (window + start) instant

-- `max(1, math.ceil(window - (instant - start)))`, where what is not positive has the ceiling 1
-- after `max`
unfoldable pub remaining : ℕ → ℕ → ℕ → ℕ
remaining window start instant = max 1 ((window + start - instant + (second - 1)) / second)

-- `self._entries.get(key)`
unfoldable pub find : Text → List Entry → Option Entry
find key [] = none
find key (e ∷ es) = if text_eq e.key key then some e else find key es

-- `self._entries[key] = ...`: an entry keeps its place, a new one comes last
unfoldable pub set : Entry → List Entry → List Entry
set e [] = e ∷ []
set e (x ∷ xs) = let rest = set e xs in if text_eq x.key e.key then e ∷ xs else x ∷ rest

-- the entries that `_bound_entries` keeps: those whose window is open
unfoldable pub open_windows : ℕ → ℕ → List Entry → List Entry
open_windows now window [] = []
open_windows now window (e ∷ es) =
    let rest = open_windows now window es in if expired window e.start now then rest else e ∷ rest

-- `min(self._entries, key=last use)`: the first of the least recently used
unfoldable pub oldest : Entry → List Entry → Entry
oldest e [] = e
oldest e (x ∷ xs) = if ltb x.used e.used then oldest x xs else oldest e xs

unfoldable pub drop_key : Text → List Entry → List Entry
drop_key key [] = []
drop_key key (e ∷ es) = let rest = drop_key key es in if text_eq e.key key then rest else e ∷ rest

-- The `while` loop of `_bound_entries`, on fuel: the number of entries suffices.
unfoldable pub evict : ℕ → ℕ → List Entry → List Entry
evict zero max_keys es = es
evict (suc f) max_keys [] = []
evict (suc f) max_keys (e ∷ es) =
    let rest = evict f max_keys (drop_key (oldest e es).key (e ∷ es)) in
    if ltb max_keys (length (e ∷ es)) then rest else e ∷ es

-- `_bound_entries(now)`
unfoldable pub bound_entries : FixedWindowLimiter → ℕ → FixedWindowLimiter
bound_entries l now =
    if leb (length l.entries) l.max_keys
    then l
    else (let es = open_windows now (window l) l.entries in
        record l { entries = evict (length es) l.max_keys es })

-- the window and the count of the key at an instant
unfoldable pub current : FixedWindowLimiter → Text → ℕ → Entry
current l key instant = elim (find key l.entries) [
  | none ↦ record { key = key; start = instant; count = 0; used = instant }
  | some e ↦
      if expired (window l) e.start instant
      then record { key = key; start = instant; count = 0; used = instant }
      else record { key = key; start = e.start; count = e.count; used = instant }
]

-- `allow(key, now=instant)`
unfoldable pub allow : FixedWindowLimiter → Text → ℕ → RateDecision × FixedWindowLimiter
allow l key instant =
    let e = current l key instant in
    if leb l.requests e.count
    then (
      record { allowed = false; retry_after = remaining (window l) e.start instant },
      record l { entries = set e l.entries },
    )
    else (
      record { allowed = true; retry_after = 0 },
      bound_entries (record l { entries = set (record e { count = e.count + 1 }) l.entries })
          instant,
    )
