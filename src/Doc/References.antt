-- ===== src/Doc/References.antt =====
-- The references of pipelines to components: `pipelines_referencing` and `strip_from_pipelines`
-- of crates/collector/src/editor/model.rs.
use securitygingercia.Doc.Strip.{
  lists-strip_def, lists-strip_def_other, lists-strip_def_key, strip_def-same,
}
use securitygingercia.Prelude.{
  String, Bool, false, List, [], ◌∷◌, ◌==◌, arith, ◌≡◌, ◌≢◌, refl, Bool-cases, inl, inr, eq_iff,
  sort, insert_sorted, ap, sym,
}
use securitygingercia.Json.{Value, Map, end, entry}
use securitygingercia.Schema.Spec.{ComponentCategory, receiver, exporter, extension}
use securitygingercia.Doc.{
  EditorDoc, lists, names_where, pipelines_referencing, strip_def, map_values, strip_from_pipelines,
}

module _ (f : Value → Value) (p : Value → Bool) where
  names_where-map_values-false :
      (m : Map) → ((v : Value) → p (f v) ≡ false) → names_where p (map_values f m) ≡ []
  unfolding names_where map_values
  names_where-map_values-false end h = refl
  names_where-map_values-false (entry k v m) h = rw (h v) (names_where-map_values-false m h)

  names_where-map_values :
      (m : Map) → ((v : Value) → p (f v) ≡ p v) → names_where p (map_values f m) ≡ names_where p m
  unfolding names_where map_values
  names_where-map_values end h = refl
  names_where-map_values (entry k v m) h = rw (h v, names_where-map_values m h)

  map_values-same :
      (m : Map) → ((v : Value) → p v ≡ false → f v ≡ v) → names_where p m ≡ [] → map_values f m ≡ m
  unfolding names_where map_values
  map_values-same end h e = refl
  map_values-same (entry k v m) h e = elim (Bool-cases (p v)) [
    | inl t ↦ cc (rw t at e)
    | inr t ↦ rw (h v t, map_values-same m h (rw t at e))
  ]

insert_sorted-ne-nil : (x : String) (xs : List String) → insert_sorted x xs ≢ []
unfolding insert_sorted
insert_sorted-ne-nil x [] = cc
insert_sorted-ne-nil x (y ∷ ys) = ground arith

pub sort-eq-nil : (xs : List String) → sort xs ≡ [] → xs ≡ []
unfolding sort
sort-eq-nil [] h = refl
sort-eq-nil (x ∷ xs) h = absurd (insert_sorted-ne-nil x (sort xs) h)

-- After an id of a category is stripped, no pipeline references it in that category.
pub pipelines_referencing-strip_self :
    (category : ComponentCategory) (id : String) (doc : EditorDoc)
    → pipelines_referencing category id (strip_from_pipelines category id doc) ≡ []
unfolding pipelines_referencing strip_from_pipelines sort
pipelines_referencing-strip_self receiver id doc =
    rw
      (names_where-map_values-false (strip_def "receivers" id) (lists "receivers" id) doc.pipelines
        (lists-strip_def "receivers" id))
      refl
pipelines_referencing-strip_self exporter id doc =
    rw
      (names_where-map_values-false (strip_def "exporters" id) (lists "exporters" id) doc.pipelines
        (lists-strip_def "exporters" id))
      refl
pipelines_referencing-strip_self extension id doc = refl

names_where-strip_other :
    (key key' id other : String) (m : Map)
    → (key ≡ key' → id ≢ other)
    → names_where (lists key' other) (map_values (strip_def key id) m)
      ≡ names_where (lists key' other) m
names_where-strip_other key key' id other m n = elim (Bool-cases (key == key')) [
  | inl e ↦
      let same : key ≡ key' = (eq_iff key key').0 e in
      rw (← same) (
        names_where-map_values (strip_def key id) (lists key other) m
          (λ def. lists-strip_def_other key id other def (n same)))
  | inr e ↦
      names_where-map_values (strip_def key id) (lists key' other) m (λ def.
        lists-strip_def_key key id key' other def (λ same. cc (e, (eq_iff key key').1 same)))
]

receivers≢exporters : ◌≢◌ {A = String} "receivers" "exporters"
receivers≢exporters = ground (arith, eq_iff "receivers" "exporters")

-- A strip changes no other reference: not those to another id of the category, and none of another
-- category.
pub pipelines_referencing-strip_other :
    (category category' : ComponentCategory) (id other : String) (doc : EditorDoc)
    → (category ≡ category' → id ≢ other)
    → pipelines_referencing category' other (strip_from_pipelines category id doc)
      ≡ pipelines_referencing category' other doc
unfolding pipelines_referencing strip_from_pipelines
pipelines_referencing-strip_other receiver receiver id other doc n =
    ap sort (names_where-strip_other "receivers" "receivers" id other doc.pipelines (λ _. n refl))
pipelines_referencing-strip_other receiver exporter id other doc n = ap sort (
    names_where-strip_other "receivers" "exporters" id other doc.pipelines
      (λ e. absurd (receivers≢exporters e)))
pipelines_referencing-strip_other exporter receiver id other doc n = ap sort (
    names_where-strip_other "exporters" "receivers" id other doc.pipelines
      (λ e. absurd (receivers≢exporters (sym e))))
pipelines_referencing-strip_other exporter exporter id other doc n =
    ap sort (names_where-strip_other "exporters" "exporters" id other doc.pipelines (λ _. n refl))
pipelines_referencing-strip_other extension category' id other doc n = refl
pipelines_referencing-strip_other category extension id other doc n = refl

-- Where no pipeline references the id, a strip changes nothing.
pub strip_from_pipelines-same :
    (category : ComponentCategory) (id : String) (doc : EditorDoc)
    → pipelines_referencing category id doc ≡ []
    → strip_from_pipelines category id doc ≡ doc
unfolding pipelines_referencing strip_from_pipelines
strip_from_pipelines-same receiver id doc h =
    rw
      (map_values-same (strip_def "receivers" id) (lists "receivers" id) doc.pipelines
        (strip_def-same "receivers" id) (sort-eq-nil _ h))
      refl
strip_from_pipelines-same exporter id doc h =
    rw
      (map_values-same (strip_def "exporters" id) (lists "exporters" id) doc.pipelines
        (strip_def-same "exporters" id) (sort-eq-nil _ h))
      refl
strip_from_pipelines-same extension id doc h = refl
