-- ===== src/Json/Maps.antt =====
-- Laws of the map of `serde_json`: what a lookup finds after an insertion and a removal.
use securitygingercia.Prelude.{
  ◌≢◌, false, String, ◌≡◌, refl, ◌∙◌, none, some, arith, ◌==◌, eq_iff, eq_refl, if◌then◌else◌, has,
  inl, inr, Bool-cases,
}
use securitygingercia.Json.{
  Value, Map, end, entry, get, insert, under, rotate_last, remove, keys, contains_key,
}

-- Each key occurs once, which `serde_json::Map` maintains.
abbrev pub IsUnique : Map → Type 0
IsUnique end = Unit
IsUnique (entry k v m) = (get k m ≡ none) × IsUnique m

pub get-insert :
    (k j : String) (v : Value) (m : Map)
    → get j (insert k v m) ≡ (if k == j then some v else get j m)
unfolding get insert
get-insert k j v end = refl
get-insert k j v (entry i w m) =
    ground (arith, eq_iff k j, eq_iff i k, eq_iff i j, get-insert k j v m)

pub get-insert_self : (k : String) (v : Value) (m : Map) → get k (insert k v m) ≡ some v
get-insert_self k v m = simp (get-insert, eq_refl)

pub get-insert_ne : (k j : String) (v : Value) (m : Map) → k ≢ j → get j (insert k v m) ≡ get j m
get-insert_ne k j v m n = ground (arith, get-insert k j v m, eq_iff k j)

pub insert-IsUnique : (k : String) (v : Value) (m : Map) → IsUnique m → IsUnique (insert k v m)
unfolding get insert
insert-IsUnique k v end u = (refl, tt)
insert-IsUnique k v (entry j w m) u = elim (Bool-cases (j == k)) [
  | inl e ↦ rw e u
  | inr n ↦ rw n (lookup n, insert-IsUnique k v m u.1)
]
  where
    lookup : (j == k) ≡ false → get j (insert k v m) ≡ none
    lookup n = ground (arith, get-insert k j v m, eq_iff k j, eq_iff j k)

get-under :
    (k j : String) (v : Value) (m : Map)
    → IsUnique (entry j v m)
    → get k (under j v m) ≡ get k (entry j v m)
unfolding get
get-under k j v end u = refl
get-under k j v (entry l w m) u = ground (arith, eq_iff l k, eq_iff j k, eq_iff l j)

under-IsUnique :
    (j : String) (v : Value) (m : Map) → IsUnique (entry j v m) → IsUnique (under j v m)
unfolding get
under-IsUnique j v end u = u
under-IsUnique j v (entry l w m) u = ground (arith, eq_iff l j, eq_iff j l)

mutual
  unfolding rotate_last get

  rotate-IsUnique : (m : Map) → IsUnique m → IsUnique (rotate_last m)
  rotate-IsUnique end u = tt
  rotate-IsUnique (entry j v m) u =
      under-IsUnique j v (rotate_last m) (get-rotate j m u.1 ∙ u.0, rotate-IsUnique m u.1)

  get-rotate : (k : String) (m : Map) → IsUnique m → get k (rotate_last m) ≡ get k m
  get-rotate k end u = refl
  get-rotate k (entry j v m) u =
      get-under k j v (rotate_last m) (get-rotate j m u.1 ∙ u.0, rotate-IsUnique m u.1)
      ∙ ground (arith, get-rotate k m u.1)

pub get-remove :
    (k j : String) (m : Map) → IsUnique m → get j (remove k m) ≡ (if k == j then none else get j m)
unfolding get remove
get-remove k j end u = ground arith
get-remove k j (entry i v m) u =
    ground (arith, eq_iff i k, eq_iff i j, eq_iff k j, get-remove k j m u.1, get-rotate j m u.1)

pub get-remove_self : (k : String) (m : Map) → IsUnique m → get k (remove k m) ≡ none
get-remove_self k m u = rw (get-remove k k m u, eq_refl)

pub remove-IsUnique : (k : String) (m : Map) → IsUnique m → IsUnique (remove k m)
unfolding get remove
remove-IsUnique k end u = tt
remove-IsUnique k (entry j v m) u = elim (Bool-cases (j == k)) [
  | inl e ↦ rw e (rotate-IsUnique m u.1)
  | inr n ↦ rw n (lookup n, remove-IsUnique k m u.1)
]
  where
    lookup : (j == k) ≡ false → get j (remove k m) ≡ none
    lookup n = ground (arith, get-remove k j m u.1)

-- A key is listed exactly when a lookup finds it.
pub has-keys : (k : String) (m : Map) → has k (keys m) ≡ contains_key k m
unfolding get keys
has-keys k end = refl
has-keys k (entry j v m) = ground (arith, has-keys k m)
