-- ===== src/Json/Laws.antt =====
-- What reading a dict gives after a write or a removal.
use curator_skill_registry.Base.{
  ◌≡◌, refl, ap, List, [], ◌∷◌, ◌∙◌, none, some, Text, text_eq, text_eq_iff, text_eq_refl,
  if◌then◌else◌, arith,
}
use curator_skill_registry.Json.{
  Value, Fields, items, of_list, end, field, get, without, insert_sorted, put,
}

pub get-without :
    (k j : Text) (fs : Fields) → get j (without k fs) ≡ (if text_eq k j then none else get j fs)
unfolding get without
get-without k j end = ground arith
get-without k j (field i v rest) =
    ground (arith, get-without k j rest, text_eq_iff i k, text_eq_iff i j, text_eq_iff k j)

get-insert_sorted :
    (k j : Text) (v : Value) (fs : Fields)
    → get k fs ≡ none
    → get j (insert_sorted k v fs) ≡ (if text_eq k j then some v else get j fs)
unfolding get insert_sorted
get-insert_sorted k j v end h = refl
get-insert_sorted k j v (field i w rest) h =
    ground (arith, get-insert_sorted k j v rest, text_eq_iff i k, text_eq_iff i j, text_eq_iff k j)

-- A dict answers a write with the value written, and every other key as before.
pub get-put :
    (k j : Text) (v : Value) (fs : Fields)
    → get j (put k v fs) ≡ (if text_eq k j then some v else get j fs)
unfolding put
get-put k j v fs = ground (
  arith,
  get-insert_sorted k j v (without k fs),
  get-without k k fs,
  get-without k j fs,
  text_eq_iff k k,
)

pub without_twice : (k : Text) (fs : Fields) → without k (without k fs) ≡ without k fs
unfolding without
without_twice k end = refl
without_twice k (field i v rest) = ground (arith, without_twice k rest)

without-insert_sorted :
    (k : Text) (v : Value) (fs : Fields) → without k (insert_sorted k v fs) ≡ without k fs
unfolding without insert_sorted
without-insert_sorted k v end = ground (arith, text_eq_refl k)
without-insert_sorted k v (field i w rest) =
    ground (arith, without-insert_sorted k v rest, text_eq_refl k)

-- Removing a key forgets what was written under it.
pub without-put : (k : Text) (v : Value) (fs : Fields) → without k (put k v fs) ≡ without k fs
unfolding put
without-put k v fs = without-insert_sorted k v (without k fs) ∙ without_twice k fs

pub get-put_same : (k : Text) (v : Value) (fs : Fields) → get k (put k v fs) ≡ some v
get-put_same k v fs = get-put k k v fs ∙ rw (text_eq_refl k)

pub items-of_list : (vs : List Value) → items (of_list vs) ≡ vs
unfolding items of_list
items-of_list [] = refl
items-of_list (v ∷ vs) = ap (◌∷◌ v) (items-of_list vs)
