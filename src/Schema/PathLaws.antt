-- ===== src/Schema/PathLaws.antt =====
-- What `get_path` reads after `set_path` has written.
use Prim.Native.String.{count}
use securitygingercia.Prelude.{
  ℕ, zero, suc, ◌<◌, String, ◌≡◌, ◌≢◌, refl, ◌∙◌, some, List, [], ◌∷◌, split, split_once, inl, inr,
  arith, Option-cases, ◌⊎◌, ap,
}
use securitygingercia.Prelude.TextLaws.{
  split_of_split_once-none, split_of_split_once-some, split-ne-nil, count-split_once,
}
use securitygingercia.Json.{Value, Map, object, get, insert, get_key}
use securitygingercia.Json.Maps.{get-insert_ne, get-insert_self, IsUnique, insert-IsUnique}
use securitygingercia.Schema.Path.{get_parts, get_path, object_or_empty, set_path_fuel, set_path}

-- The reference definition: a write at a list of parts, by recursion on the list.
abbrev pub set_parts : List String → Map → Value → Map
set_parts [] m value = m
set_parts (part ∷ []) m value = insert part value m
set_parts (part ∷ next ∷ parts) m value =
    insert part (object (set_parts (next ∷ parts) (object_or_empty (get part m)) value)) m

set_parts-cons :
    (part : String) (parts : List String) (m : Map) (value : Value)
    → parts ≢ []
    → set_parts (part ∷ parts) m value
      ≡ insert part (object (set_parts parts (object_or_empty (get part m)) value)) m
set_parts-cons part [] m value h = absurd (h refl)
set_parts-cons part (next ∷ parts) m value h = refl

set_path_fuel-eq-set_parts :
    (fuel : ℕ) (m : Map) (path : String) (value : Value)
    → count path < fuel
    → set_path_fuel fuel m path value ≡ set_parts (split b'.' path) m value
unfolding set_path_fuel
set_path_fuel-eq-set_parts zero m path value h = absurd (omega arith)
set_path_fuel-eq-set_parts (suc fuel) m path value h = elim (Option-cases (split_once b'.' path)) [
  | inl e ↦ rw (e, set_path_fuel, split_of_split_once-none b'.' path e)
  | inr ((first, rest), e) ↦
      rw (e, set_path_fuel, split_of_split_once-some b'.' path first rest e)
        (rw (set_parts-cons first (split b'.' rest) m value (split-ne-nil b'.' rest)) (
          ap (λ inner. insert first (object inner) m)
            (set_path_fuel-eq-set_parts fuel (object_or_empty (get first m)) rest value
              (omega (arith, count-split_once b'.' path first rest e)))))
]

-- A write at a dotted path is the write at the parts of the split path, for every map, path and
-- value: the fuel of the recursion is enough.
pub set_path-eq-set_parts :
    (m : Map) (path : String) (value : Value)
    → set_path m path value ≡ set_parts (split b'.' path) m value
unfolding set_path
set_path-eq-set_parts m path value =
    set_path_fuel-eq-set_parts (suc (count path)) m path value (omega arith)

set_parts-IsUnique :
    (parts : List String) (m : Map) (value : Value)
    → IsUnique m
    → IsUnique (set_parts parts m value)
set_parts-IsUnique [] m value u = u
set_parts-IsUnique (part ∷ []) m value u = insert-IsUnique part value m u
set_parts-IsUnique (part ∷ next ∷ parts) m value u = insert-IsUnique part _ m u

pub set_path-IsUnique :
    (m : Map) (path : String) (value : Value) → IsUnique m → IsUnique (set_path m path value)
set_path-IsUnique m path value u =
    rw (set_path-eq-set_parts m path value) (set_parts-IsUnique (split b'.' path) m value u)

get_parts-set_parts_self :
    (parts : List String) (m : Map) (value : Value)
    → parts ≢ []
    → get_parts parts (object (set_parts parts m value)) ≡ some value
unfolding get_parts get_key
get_parts-set_parts_self [] m value h = absurd (h refl)
get_parts-set_parts_self (part ∷ []) m value h = rw (get-insert_self part value m, get_parts)
get_parts-set_parts_self (part ∷ next ∷ parts) m value h =
    rw
      (
        get-insert_self part
            (object (set_parts (next ∷ parts) (object_or_empty (get part m)) value)) m,
        get_parts,
      )
      (get_parts-set_parts_self (next ∷ parts) (object_or_empty (get part m)) value (cc))

-- Two lists of parts that part ways: neither is the beginning of the other.
abbrev pub Diverge : List String → List String → Type 0
Diverge [] qs = ⊥
Diverge (p ∷ ps) [] = ⊥
Diverge (p ∷ ps) (q ∷ qs) = (p ≢ q) ⊎ ((p ≡ q) × Diverge ps qs)

-- A value that is no object is read as the empty object would be.
get_parts-object_of :
    (q : String) (qs : List String) (v : Value)
    → get_parts (q ∷ qs) (object (object_or_empty (some v))) ≡ get_parts (q ∷ qs) v
unfolding get_parts get_key get
get_parts-object_of q qs (object m) = refl
get_parts-object_of q qs _ = refl

get_parts-object_or_empty :
    (p q : String) (qs : List String) (m : Map)
    → get_parts (q ∷ qs) (object (object_or_empty (get p m))) ≡ get_parts (p ∷ q ∷ qs) (object m)
unfolding get_parts get_key get
get_parts-object_or_empty p q qs m = elim (Option-cases (get p m)) [
  | inl e ↦ rw (e, get_parts) refl
  | inr (v, e) ↦ rw (e, get_parts) (get_parts-object_of q qs v)
]

get_parts-set_parts_ne :
    (ps qs : List String) (m : Map) (value : Value)
    → Diverge ps qs
    → get_parts qs (object (set_parts ps m value)) ≡ get_parts qs (object m)
unfolding get_parts get_key
get_parts-set_parts_ne [] qs m value d = absurd d
get_parts-set_parts_ne (p ∷ ps) [] m value d = absurd d
get_parts-set_parts_ne (p ∷ []) (q ∷ qs) m value (inl n) =
    rw (get-insert_ne p q value m n, get_parts)
get_parts-set_parts_ne (p ∷ []) (q ∷ qs) m value (inr (e, d)) = absurd d
get_parts-set_parts_ne (p ∷ r ∷ ps) (q ∷ qs) m value (inl n) =
    rw (get-insert_ne p q _ m n, get_parts)
get_parts-set_parts_ne (p ∷ r ∷ ps) (q ∷ []) m value (inr (e, d)) = absurd d
get_parts-set_parts_ne (p ∷ r ∷ ps) (q ∷ s ∷ qs) m value (inr (e, d)) =
    let inner = set_parts (r ∷ ps) (object_or_empty (get p m)) value in
    rw (← e, get-insert_self p (object inner) m, get_parts)
      (get_parts-set_parts_ne (r ∷ ps) (s ∷ qs) (object_or_empty (get p m)) value d
        ∙ get_parts-object_or_empty p s qs m)

-- A read at a dotted path gives back what was written there, whatever stood in the way before.
pub get_path-set_path_self :
    (m : Map) (path : String) (value : Value)
    → get_path (object (set_path m path value)) path ≡ some value
unfolding get_path
get_path-set_path_self m path value =
    rw (set_path-eq-set_parts m path value)
      (get_parts-set_parts_self (split b'.' path) m value (split-ne-nil b'.' path))

-- A write leaves every path alone that parts ways with its own: of the two split paths, neither is
-- the beginning of the other.
pub get_path-set_path_ne :
    (m : Map) (path other : String) (value : Value)
    → Diverge (split b'.' path) (split b'.' other)
    → get_path (object (set_path m path value)) other ≡ get_path (object m) other
unfolding get_path
get_path-set_path_ne m path other value d =
    rw (set_path-eq-set_parts m path value)
      (get_parts-set_parts_ne (split b'.' path) (split b'.' other) m value d)
