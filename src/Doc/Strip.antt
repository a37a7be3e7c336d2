-- ===== src/Doc/Strip.antt =====
-- One pipeline's definition, and the id that is stripped from its list: the loop's body in
-- `strip_from_pipelines` of crates/collector/src/editor/model.rs.
use securitygingercia.Prelude.{
  String, true, false, none, some, List, [], ◌∷◌, any, keep, arith, ◌≡◌, ◌≢◌, refl, Option-cases,
  inl, inr, not, eq_iff, ap, ◌∙◌,
}
use securitygingercia.Json.{
  Value, Values, Map, end, entry, get, insert, get_key, as_array, is_text, items, values, array_of,
}
use securitygingercia.Json.Maps.{get-insert_self, get-insert_ne}
use securitygingercia.Doc.{lists, put_key, strip_def}

pub items-values : (vs : List Value) → items (values vs) ≡ vs
items-values [] = refl
items-values (v ∷ vs) = rw (items-values vs)

pub values-items : (vs : Values) → values (items vs) ≡ vs
values-items Values.nil = refl
values-items (Values.cons v vs) = rw (values-items vs)

any-keep-not :
    (id : String) (vs : List Value)
    → any (is_text id) (keep (λ item. not (is_text id item)) vs) ≡ false
any-keep-not id [] = refl
any-keep-not id (v ∷ vs) = ground (arith, any-keep-not id vs)

is_text-eq :
    (id other : String) (v : Value) → is_text id v ≡ true → is_text other v ≡ true → id ≡ other
unfolding is_text
is_text-eq id other (Value.string s) h k = ground (arith, eq_iff s id, eq_iff s other)
is_text-eq id other _ h k = cc

any-keep_other :
    (id other : String) (vs : List Value)
    → id ≢ other
    → any (is_text other) (keep (λ item. not (is_text id item)) vs) ≡ any (is_text other) vs
any-keep_other id other [] n = refl
any-keep_other id other (v ∷ vs) n =
    ground (arith, any-keep_other id other vs n, is_text-eq id other v)

keep_all :
    (id : String) (vs : List Value)
    → any (is_text id) vs ≡ false
    → keep (λ item. not (is_text id item)) vs ≡ vs
keep_all id [] h = refl
keep_all id (v ∷ vs) h = ground (arith, keep_all id vs)

insert_same : (k : String) (v : Value) (m : Map) → get k m ≡ some v → insert k v m ≡ m
unfolding get insert
insert_same k v end h = cc
insert_same k v (entry j w m) h = ground (arith, eq_iff j k, insert_same k v m)

-- What `strip_def` writes, where there is a list at the key.
abbrev stripped : String → Values → Value
stripped id arr = array_of (keep (λ item. not (is_text id item)) (items arr))

lists-array :
    (key id : String) (arr : List Value) (m : Map)
    → lists key id (Value.object (insert key (array_of arr) m)) ≡ any (is_text id) arr
unfolding lists get_key
lists-array key id arr m = rw (get-insert_self key (array_of arr) m, lists, items-values arr)

lists-insert_ne :
    (key other id : String) (v : Value) (m : Map)
    → key ≢ other
    → lists other id (Value.object (insert key v m)) ≡ lists other id (Value.object m)
unfolding lists get_key
lists-insert_ne key other id v m n = rw (get-insert_ne key other v m n, lists)

module _ (key id : String) where
  -- A property of the stripped definition, from its two cases.
  strip_def_cases :
      (P : Value → Type 0) (def : Value)
      → (lists key id def ≡ false → P def)
      → ((m : Map) (arr : Values)
          → def ≡ Value.object m
          → get key m ≡ some (Value.array arr)
          → P (Value.object (insert key (stripped id arr) m)))
      → P (strip_def key id def)
  unfolding strip_def lists get_key put_key
  strip_def_cases P (Value.object m) same put = elim (Option-cases (get key m)) [
    | inl e ↦ rw (e, strip_def) (same (rw (e, lists)))
    | inr (v, e) ↦ rw (e, strip_def) (at_value v e)
  ]
    where
      at_value :
          (v : Value)
          → get key m ≡ some v
          → P (elim (as_array v) [
            | none ↦ Value.object m
            | some arr ↦ put_key key (stripped id arr) (Value.object m)
          ])
      at_value (Value.array arr) e = put m arr refl e
      at_value _ e = same (rw (e, lists))
  strip_def_cases P _ same put = same refl

  -- One definition: the id is gone from the list at the key.
  pub lists-strip_def : (def : Value) → lists key id (strip_def key id def) ≡ false
  lists-strip_def def =
      strip_def_cases (λ d. lists key id d ≡ false) def (λ h. h)
        (λ m arr _ e. lists-array key id _ m ∙ any-keep-not id (items arr))

  -- Another id is listed after it as before.
  pub lists-strip_def_other :
      (other : String) (def : Value)
      → id ≢ other
      → lists key other (strip_def key id def) ≡ lists key other def
  unfolding lists get_key
  lists-strip_def_other other def n =
      strip_def_cases (λ d. lists key other d ≡ lists key other def) def (λ h. refl)
        (λ m arr is e.
          rw is (lists-array key other _ m ∙ any-keep_other id other (items arr) n ∙ rw (e, lists)))

  -- The list at another key is left alone.
  pub lists-strip_def_key :
      (key' other : String) (def : Value)
      → key ≢ key'
      → lists key' other (strip_def key id def) ≡ lists key' other def
  lists-strip_def_key key' other def n =
      strip_def_cases (λ d. lists key' other d ≡ lists key' other def) def (λ h. refl)
        (λ m arr is e. rw is (lists-insert_ne key key' other _ m n))

  -- A definition that does not list the id is left as it is.
  pub strip_def-same : (def : Value) → lists key id def ≡ false → strip_def key id def ≡ def
  unfolding lists get_key
  strip_def-same def h =
      strip_def_cases (λ d. d ≡ def) def (λ _. refl)
        (λ m arr is e. rw is (
          ap Value.object (
            rw (keep_all id (items arr) (rw (is, e, lists) at h), values-items arr)
              (insert_same key (Value.array arr) m e))))
