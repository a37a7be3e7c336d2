-- ===== src/Doc/Placeholder.antt =====
-- `placeholder_for_validation` of crates/collector/src/editor/model.rs: the texts with and
-- without a `${`.
use securitygingercia.Prelude.{String, false, ◌≡◌, refl, contains, Bool-cases, inl, inr, ap, ap₂}
use securitygingercia.Json.{
  Value, Values, Map, nil, cons, end, entry, null, bool, number, string, array, object,
}
use securitygingercia.Doc.{placeholder_for_validation, placeholder_values, placeholder_map}

-- No text within the value has a `${`. Keys are not asked about.
unfoldable mutual
  pub HasNoVar : Value → Type 0
  HasNoVar (string s) = contains s "${" ≡ false
  HasNoVar (array vs) = HaveNoVar vs
  HasNoVar (object m) = MapHasNoVar m
  HasNoVar _ = Unit

  pub HaveNoVar : Values → Type 0
  HaveNoVar nil = Unit
  HaveNoVar (cons v vs) = HasNoVar v × HaveNoVar vs

  pub MapHasNoVar : Map → Type 0
  MapHasNoVar end = Unit
  MapHasNoVar (entry k v m) = HasNoVar v × MapHasNoVar m

string-HasNoVar : (s : String) → HasNoVar (placeholder_for_validation (string s))
unfolding placeholder_for_validation HasNoVar contains
string-HasNoVar s = elim (Bool-cases (contains s "${")) [ inl e ↦ rw e refl | inr e ↦ rw e e ]

mutual
  unfolding placeholder_for_validation HasNoVar

  placeholder-HasNoVar : (v : Value) → HasNoVar (placeholder_for_validation v)
  placeholder-HasNoVar null = tt
  placeholder-HasNoVar (bool b) = tt
  placeholder-HasNoVar (number n) = tt
  placeholder-HasNoVar (string s) = string-HasNoVar s
  placeholder-HasNoVar (array vs) = values-HaveNoVar vs
  placeholder-HasNoVar (object m) = map-HasNoVar m

  values-HaveNoVar : (vs : Values) → HaveNoVar (placeholder_values vs)
  values-HaveNoVar nil = tt
  values-HaveNoVar (cons v vs) = (placeholder-HasNoVar v, values-HaveNoVar vs)

  map-HasNoVar : (m : Map) → MapHasNoVar (placeholder_map m)
  map-HasNoVar end = tt
  map-HasNoVar (entry k v m) = (placeholder-HasNoVar v, map-HasNoVar m)

mutual
  unfolding placeholder_for_validation HasNoVar

  same_of_HasNoVar : (v : Value) → HasNoVar v → placeholder_for_validation v ≡ v
  same_of_HasNoVar null h = refl
  same_of_HasNoVar (bool b) h = refl
  same_of_HasNoVar (number n) h = refl
  same_of_HasNoVar (string s) h = rw h refl
  same_of_HasNoVar (array vs) h = ap array (same_of_HaveNoVar vs h)
  same_of_HasNoVar (object m) h = ap object (same_of_MapHasNoVar m h)

  same_of_HaveNoVar : (vs : Values) → HaveNoVar vs → placeholder_values vs ≡ vs
  same_of_HaveNoVar nil h = refl
  same_of_HaveNoVar (cons v vs) h = ap₂ cons (same_of_HasNoVar v h.0) (same_of_HaveNoVar vs h.1)

  same_of_MapHasNoVar : (m : Map) → MapHasNoVar m → placeholder_map m ≡ m
  same_of_MapHasNoVar end h = refl
  same_of_MapHasNoVar (entry k v m) h =
      ap₂ (entry k) (same_of_HasNoVar v h.0) (same_of_MapHasNoVar m h.1)

-- No text of the value that is validated has a `${`.
pub placeholder_for_validation-HasNoVar : (v : Value) → HasNoVar (placeholder_for_validation v)
placeholder_for_validation-HasNoVar v = placeholder-HasNoVar v

-- A value none of whose texts has a `${` is validated as it is.
pub placeholder_for_validation-same : (v : Value) → HasNoVar v → placeholder_for_validation v ≡ v
placeholder_for_validation-same v h = same_of_HasNoVar v h
