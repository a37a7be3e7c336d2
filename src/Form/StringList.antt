-- ===== src/Form/StringList.antt =====
-- A list of texts through its text field: what `field_edit_state_from` joins, `to_value` splits
-- again (crates/collector/src/editor/app.rs).
use Prim.Native.String.{String, [], ◌∷◌}
use text.Mathlib.TextLemmas.{nil-append, cons-append}
use securitygingercia.Prelude.{
  ℕ, Char, code, Bool, true, false, List, [], ◌∷◌, ◌≡◌, ◌≢◌, refl, ap, ap₂, ◌∙◌, eqb, split, trim,
  trim_start, trim_end, is_whitespace, join_comma, is_blank, map, keep, not, All, ◌+++◌, onto_first,
  ◌&&◌, if◌then◌else◌,
}
use securitygingercia.Prelude.TextLaws.{split-ne-nil}
use securitygingercia.Form.{list_items}

abbrev pub HasNo : ℕ → String → Type 0
HasNo sep [] = Unit
HasNo sep (c ∷ s) = (eqb (code c) sep ≡ false) × HasNo sep s

split-HasNo : (sep : ℕ) (x : String) → HasNo sep x → split sep x ≡ x ∷ []
unfolding split
split-HasNo sep [] h = refl
split-HasNo sep (c ∷ x) h = rw (h.0, split-HasNo sep x h.1) refl

split-append :
    (sep : ℕ) (x : String) (c : Char) (s : String)
    → HasNo sep x
    → eqb (code c) sep ≡ true
    → split sep (x +++ (c ∷ s)) ≡ x ∷ split sep s
unfolding split
split-append sep [] c s h e = rw (nil-append (c ∷ s), split, e) refl
split-append sep (d ∷ x) c s h e =
    rw (cons-append d x (c ∷ s), split, h.0, split-append sep x c s h.1 e) refl

abbrev comma : Char
comma = ","

abbrev space : Char
space = " "

comma-append : (t : String) → ", " +++ t ≡ comma ∷ (space ∷ t)
comma-append t =
    cons-append comma (space ∷ []) t
    ∙ ap (λ (r : String). comma ∷ r)
        (cons-append space [] t ∙ ap (λ (r : String). space ∷ r) (nil-append t))

trim_start-trim_end :
    (rest : String) (b : Bool)
    → trim_start (if is_blank rest && b then [] else space ∷ rest) ≡ trim_start rest
unfolding trim_start is_whitespace
trim_start-trim_end [] true = refl
trim_start-trim_end [] false = refl
trim_start-trim_end (c ∷ s) b = refl

-- A leading space is trimmed away.
trim-space : (s : String) → trim (space ∷ s) ≡ trim s
unfolding trim trim_end
trim-space s = trim_start-trim_end (trim_end s) (is_whitespace (code space))

map-trim-onto_first : (ps : List String) → ps ≢ [] → map trim (onto_first space ps) ≡ map trim ps
map-trim-onto_first [] h = absurd (h refl)
map-trim-onto_first (p ∷ ps) h = ap (λ (t : String). t ∷ map trim ps) (trim-space p)

split-space : (s : String) → split b',' (space ∷ s) ≡ onto_first space (split b',' s)
unfolding split
split-space s = refl

-- An item that the text field can hold: trimmed, not empty, and without a comma.
abbrev pub IsItem : String → Type 0
IsItem x = HasNo b',' x × (trim x ≡ x) × (is_blank x ≡ false)

map-trim-join :
    (x : String) (xs : List String)
    → All IsItem (x ∷ xs)
    → map trim (split b',' (join_comma (x ∷ xs))) ≡ x ∷ xs
unfolding join_comma
map-trim-join x [] h = rw (split-HasNo b',' x h.0.0, h.0.1) refl
map-trim-join x (y ∷ ys) h =
    rw
      (
        comma-append (join_comma (y ∷ ys)),
        split-append b',' x comma (space ∷ join_comma (y ∷ ys)) h.0.0 refl,
        split-space (join_comma (y ∷ ys)),
      )
      (ap₂ (λ (a : String) (b : List String). a ∷ b) h.0.1
        (map-trim-onto_first (split b',' (join_comma (y ∷ ys)))
            (split-ne-nil b',' (join_comma (y ∷ ys)))
          ∙ map-trim-join y ys h.1))

keep_items : (xs : List String) → All IsItem xs → keep (λ item. not (is_blank item)) xs ≡ xs
keep_items [] h = refl
keep_items (x ∷ xs) h = rw (h.0.2, keep_items xs h.1) refl

list_items-blank : list_items (join_comma []) ≡ []
unfolding list_items join_comma split trim trim_start trim_end
list_items-blank = refl

-- A list of trimmed, non-empty texts without commas survives the form: joined into the text field
-- and split again, it is the list that it was.
pub list_items-join_comma : (xs : List String) → All IsItem xs → list_items (join_comma xs) ≡ xs
unfolding list_items
list_items-join_comma [] h = list_items-blank
list_items-join_comma (x ∷ xs) h = rw (map-trim-join x xs h) (keep_items (x ∷ xs) h)
