-- ===== src/Form/Reading.antt =====
-- What the value of a form holds at each path: `to_value` of `FormState`,
-- crates/collector/src/editor/app.rs.
use securitygingercia.Prelude.{
  Bool, true, false, split_once, split_once, Bool, ret-injective, >>=-eq-ret, String, Option, none,
  some, List, [], ◌∷◌, ◌≡◌, ◌≢◌, refl, sym, ◌∙◌, ap, All, split, ret, inl, inr,
}
use securitygingercia.Json.{Value, Map, end, get, get_key}
use securitygingercia.Keys.{Toolkit}
use securitygingercia.Schema.Spec.{FieldSpec}
use securitygingercia.Schema.Path.{set_path, get_path, get_parts}
use securitygingercia.Schema.PathLaws.{Diverge, get_path-set_path_self, get_path-set_path_ne}
use securitygingercia.Prelude.TextLaws.{split-ne-nil}
use securitygingercia.Form.{
  write_type, FormState, to_value, set_path, FieldEditState, written, write_at, write_fields,
}

pub Diverge-symm : (ps qs : List String) → Diverge ps qs → Diverge qs ps
Diverge-symm [] qs d = absurd d
Diverge-symm (p ∷ ps) [] d = absurd d
Diverge-symm (p ∷ ps) (q ∷ qs) (inl n) = inl (λ e. n (sym e))
Diverge-symm (p ∷ ps) (q ∷ qs) (inr (e, d)) = inr (sym e, Diverge-symm ps qs d)

-- Of two dotted paths neither is the beginning of the other.
abbrev pub Apart : String → String → Type 0
Apart a b = Diverge (split b'.' a) (split b'.' b)

abbrev pub ApartFromAll : String → List FieldSpec → Type 0
ApartFromAll path specs = All (λ spec. Apart spec.key path) specs

-- The keys of the fields are apart, each from each.
abbrev pub AreApart : List FieldSpec → Type 0
AreApart [] = Unit
AreApart (spec ∷ specs) = ApartFromAll spec.key specs × AreApart specs

get_path-end : (path : String) → get_path (Value.object end) path ≡ none
unfolding get_path get_parts get_key get
get_path-end path = at_parts (split b'.' path) (split-ne-nil b'.' path)
  where
    at_parts : (ps : List String) → ps ≢ [] → get_parts ps (Value.object end) ≡ none
    at_parts [] h = absurd (h refl)
    at_parts (p ∷ ps) h = refl

-- The `type` that a form writes, if it writes one.
abbrev pub type_value : Bool → Option String → Option Value
type_value true (some type_name) = some (Value.string type_name)
type_value _ _ = none

module _ {Input : Type 0} (kit : Toolkit Input) where
  -- At the key of each field stands what the field writes, and nothing where it writes nothing.
  abbrev pub ReadsBack : List FieldSpec → List (FieldEditState Input) → Value → Type 0
  ReadsBack (spec ∷ specs) (state ∷ states) v =
      (written kit state ≡ ret (get_path v spec.key)) × ReadsBack specs states v
  ReadsBack _ _ v = Unit

  write_at-Apart :
      (key path : String) (value : Option Value) (m : Map)
      → Apart key path
      → get_path (Value.object (write_at kit key value m)) path ≡ get_path (Value.object m) path
  write_at-Apart key path none m d = refl
  write_at-Apart key path (some v) m d = get_path-set_path_ne m key path v d

  write_at_self :
      (key : String) (value : Option Value) (m : Map)
      → get_path (Value.object m) key ≡ none
      → get_path (Value.object (write_at kit key value m)) key ≡ value
  write_at_self key none m h = h
  write_at_self key (some v) m h = get_path-set_path_self m key v

  base :
      (m m' : Map) (path : String)
      → ret m ≡ ret m'
      → get_path (Value.object m') path ≡ get_path (Value.object m) path
  base m m' path e = ap (λ n. get_path (Value.object n) path) (sym (ret-injective e))

  write_fields-Apart :
      (specs : List FieldSpec) (states : List (FieldEditState Input)) (m m' : Map) (path : String)
      → ApartFromAll path specs
      → write_fields kit specs states m ≡ ret m'
      → get_path (Value.object m') path ≡ get_path (Value.object m) path
  unfolding write_fields
  write_fields-Apart [] states m m' path a e = base m m' path e
  write_fields-Apart (spec ∷ specs) [] m m' path a e = base m m' path e
  write_fields-Apart (spec ∷ specs) (state ∷ states) m m' path a e =
      let (value, w, e') =
        >>=-eq-ret (written kit state)
          (λ value. write_fields kit specs states (write_at kit spec.key value m)) e in
      write_fields-Apart specs states (write_at kit spec.key value m) m' path a.1 e'
      ∙ write_at-Apart spec.key path value m a.0

  write_fields-ReadsBack :
      (specs : List FieldSpec) (states : List (FieldEditState Input)) (m m' : Map)
      → AreApart specs
      → All (λ spec. get_path (Value.object m) spec.key ≡ none) specs
      → write_fields kit specs states m ≡ ret m'
      → ReadsBack specs states (Value.object m')
  unfolding write_fields
  write_fields-ReadsBack [] states m m' a n e = tt
  write_fields-ReadsBack (spec ∷ specs) [] m m' a n e = tt
  write_fields-ReadsBack (spec ∷ specs) (state ∷ states) m m' a n e =
      let (value, w, e') =
        >>=-eq-ret (written kit state)
          (λ value. write_fields kit specs states (write_at kit spec.key value m)) e in
      let after = write_at kit spec.key value m in
      (
        w
            ∙ ap ret (
                sym (
                  write_fields-Apart specs states after m' spec.key a.0 e'
                  ∙ write_at_self spec.key value m n.0)),
        write_fields-ReadsBack specs states after m' a.1 (still_none spec.key value specs a.0 n.1)
            e',
      )
    where
      still_none :
          (key : String) (value : Option Value) (ss : List FieldSpec)
          → ApartFromAll key ss
          → All (λ spec. get_path (Value.object m) spec.key ≡ none) ss
          → All (λ spec. get_path (Value.object (write_at kit key value m)) spec.key ≡ none) ss
      still_none key value [] h k = tt
      still_none key value (s ∷ ss) h k = (
        write_at-Apart key s.key value m (Diverge-symm (split b'.' s.key) (split b'.' key) h.0)
            ∙ k.0,
        still_none key value ss h.1 k.1,
      )

  ReadsBack-write_at :
      (key : String) (value : Option Value) (specs : List FieldSpec)
      (states : List (FieldEditState Input)) (m : Map)
      → ApartFromAll key specs
      → ReadsBack specs states (Value.object m)
      → ReadsBack specs states (Value.object (write_at kit key value m))
  ReadsBack-write_at key value [] states m a r = tt
  ReadsBack-write_at key value (s ∷ ss) [] m a r = tt
  ReadsBack-write_at key value (s ∷ ss) (x ∷ xs) m a r = (
    r.0
        ∙ ap ret (
            sym (
              write_at-Apart key s.key value m
                (Diverge-symm (split b'.' s.key) (split b'.' key) a.0))),
    ReadsBack-write_at key value ss xs m a.1 r.1,
  )

  write_type-eq :
      (b : Bool) (t : Option String) (m : Map)
      → write_type kit b t m ≡ write_at kit "type" (type_value b t) m
  unfolding set_path split_once
  write_type-eq true (some type_name) m = refl
  write_type-eq true none m = refl
  write_type-eq false t m = refl

  -- The parts of the value of a form.
  to_value-parts :
      (form : FormState Input) (v : Value)
      → to_value kit form ≡ ret v
      → (m : Map) × (write_fields kit form.fields_spec form.fields end ≡ ret m)
        × (v ≡ Value.object (write_at kit "type" (type_value form.write_type_key form.type_name) m))
  unfolding to_value
  to_value-parts form v e =
      let (m, w, e') = >>=-eq-ret (write_fields kit form.fields_spec form.fields end) _ e in
      (
        m,
        w,
        sym (ret-injective e')
            ∙ ap Value.object (write_type-eq form.write_type_key form.type_name m),
      )

  All-none :
      (specs : List FieldSpec) → All (λ spec. get_path (Value.object end) spec.key ≡ none) specs
  All-none [] = tt
  All-none (s ∷ ss) = (get_path-end s.key, All-none ss)

  -- In the value that a form gives, where its keys are apart from each other and from `type`, each
  -- field's path holds what the field writes and nothing where it writes nothing, and `type` holds
  -- the type exactly if it is to be written.
  pub to_value-ReadsBack :
      (form : FormState Input) (v : Value)
      → AreApart form.fields_spec
      → ApartFromAll "type" form.fields_spec
      → to_value kit form ≡ ret v
      → ReadsBack form.fields_spec form.fields v
        × (get_path v "type" ≡ type_value form.write_type_key form.type_name)
  to_value-ReadsBack form v a t e =
      let (m, w, is) = to_value-parts form v e in
      let value = type_value form.write_type_key form.type_name in
      rw is (
        ReadsBack-write_at "type" value form.fields_spec form.fields m t (
            write_fields-ReadsBack form.fields_spec form.fields end m a (All-none form.fields_spec)
              w),
        write_at_self "type" value m (
            write_fields-Apart form.fields_spec form.fields end m "type" t w ∙ get_path-end "type"),
      )

  -- The value of a form holds nothing at a path that is apart from `type` and from every key of
  -- the form's fields.
  pub to_value-drops :
      (form : FormState Input) (v : Value) (path : String)
      → ApartFromAll path form.fields_spec
      → Apart "type" path
      → to_value kit form ≡ ret v
      → get_path v path ≡ none
  to_value-drops form v path a t e =
      let (m, w, is) = to_value-parts form v e in
      rw is (
        write_at-Apart "type" path (type_value form.write_type_key form.type_name) m t
        ∙ write_fields-Apart form.fields_spec form.fields end m path a w
        ∙ get_path-end path)
