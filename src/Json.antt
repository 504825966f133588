-- ===== src/Json.antt =====
-- The JSON values that src/csk_registry passes around as Python objects. A `dict` is a list of
-- fields in the order of its keys, each key once: no code here depends on the order of insertion,
-- and two dicts are equal in Python whatever that order was.
pub mod Canonical
pub mod Laws
use curator_skill_registry.Base.{
  ℕ, Bool, true, false, List, [], ◌∷◌, Option, none, some, Text, text_eq, ltb, ◌==◌, ◌||◌, ◌&&◌,
  not, if◌then◌else◌, zero, suc, length, all,
}

-- `negsuc n` is -(n + 1).
pub data ℤ : Type 0 where
  pos : ℕ → ℤ
  negsuc : ℕ → ℤ

-- A float keeps only the text that it is printed as: the code refuses every one.
mutual
  pub data Value : Type 0 where
    null : Value
    bool : Bool → Value
    int : ℤ → Value
    float : Text → Value
    str : Text → Value
    arr : Items → Value
    obj : Fields → Value

  pub data Items : Type 0 where
    nil : Items
    cons : Value → Items → Items

  pub data Fields : Type 0 where
    end : Fields
    field : Text → Value → Fields → Fields

-- the order of code points
unfoldable pub text_lt : Text → Text → Bool
text_lt [] [] = false
text_lt [] (d ∷ t) = true
text_lt (c ∷ s) [] = false
text_lt (c ∷ s) (d ∷ t) = ltb c d || (c == d && text_lt s t)

-- `d.get(key)`
unfoldable pub get : Text → Fields → Option Value
get key end = none
get key (field k v rest) = if text_eq k key then some v else get key rest

-- `key in d`
abbrev pub has : Text → Fields → Bool
has key fields = elim (get key fields) [ none ↦ false | some _ ↦ true ]

-- `{k: v for k, v in d.items() if k != key}`
unfoldable pub without : Text → Fields → Fields
without key end = end
without key (field k v rest) =
    let rest' = without key rest in if text_eq k key then rest' else field k v rest'

unfoldable pub insert_sorted : Text → Value → Fields → Fields
insert_sorted key value end = field key value end
insert_sorted key value (field k v rest) =
    let rest' = insert_sorted key value rest in
    if text_lt key k then field key value (field k v rest) else field k v rest'

-- `d[key] = value`
unfoldable pub put : Text → Value → Fields → Fields
unfolding without insert_sorted text_lt
put key value fields = insert_sorted key value (without key fields)

unfoldable pub keys : Fields → List Text
keys end = []
keys (field k v rest) = k ∷ keys rest

-- `set(d) == {...}`, with names that are all different
unfoldable pub has_exactly : List Text → Fields → Bool
has_exactly names fields = length (keys fields) == length names && all (λ n. has n fields) names

unfoldable pub items : Items → List Value
items nil = []
items (cons v rest) = v ∷ items rest

unfoldable pub of_list : List Value → Items
of_list [] = nil
of_list (v ∷ vs) = cons v (of_list vs)

-- `isinstance(value, str) and value`
unfoldable pub nonempty_str : Option Value → Option Text
nonempty_str (some (str [])) = none
nonempty_str (some (str (c ∷ s))) = some (c ∷ s)
nonempty_str _ = none

-- `isinstance(value, str)`
unfoldable pub as_str : Option Value → Option Text
as_str (some (str s)) = some s
as_str _ = none

-- `isinstance(value, int) and not isinstance(value, bool)`, at a value that is not negative
unfoldable pub as_nat : Option Value → Option ℕ
as_nat (some (int (pos n))) = some n
as_nat _ = none

-- `value == n` in Python, where `True == 1`. `float_eq t n` is that test for the float which is
-- printed as `t`.
unfoldable pub equals_nat : (Text → ℕ → Bool) → Option Value → ℕ → Bool
equals_nat float_eq (some (int (pos m))) n = m == n
equals_nat float_eq (some (bool b)) n = (if b then 1 else 0) == n
equals_nat float_eq (some (float t)) n = float_eq t n
equals_nat float_eq _ n = false
