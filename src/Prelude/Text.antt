-- ===== src/Prelude/Text.antt =====
-- The operations of `str` that the source uses, over the characters of a text.
use Prim.Native.Nat.{ℕ}
use Prim.Native.Char.{Char, code}
use Prim.Native.String
use Prim.Native.String.{String, [], ◌∷◌}
use text.Mathlib.Text.{◌==◌, is_le}
use mathlib.Core.Bool.{Bool, true, false, ◌||◌, ◌&&◌}
use mathlib.Core.Option.{Option, none, some}
use mathlib.Core.List.{List, [], ◌∷◌}
use securitygingercia.Prelude.Tests.{if◌then◌else◌, leb, eqb}

infixr 65 ◌+++◌
abbrev pub ◌+++◌ : String → String → String
s +++ t = String.◌++◌ s t

-- `str::is_empty`
abbrev pub is_blank : String → Bool
is_blank [] = true
is_blank (c ∷ s) = false

-- A character in front of the first part of a split text.
abbrev pub onto_first : Char → List String → List String
onto_first c [] = (c ∷ []) ∷ []
onto_first c (p ∷ ps) = (c ∷ p) ∷ ps

-- `str::split(sep)`: a text without a separator is one part, itself.
unfoldable pub split : ℕ → String → List String
split sep [] = "" ∷ []
split sep (c ∷ s) =
    let rest = split sep s in if eqb (code c) sep then "" ∷ rest else onto_first c rest

abbrev pub onto_fst : Char → Option (String × String) → Option (String × String)
onto_fst c none = none
onto_fst c (some (a, b)) = some (c ∷ a, b)

-- `str::split_once(sep)`
unfoldable pub split_once : ℕ → String → Option (String × String)
split_once sep [] = none
split_once sep (c ∷ s) =
    let rest = onto_fst c (split_once sep s) in if eqb (code c) sep then some ("", s) else rest

-- `str::rsplit_once(sep)`
unfoldable pub rsplit_once : ℕ → String → Option (String × String)
rsplit_once sep [] = none
rsplit_once sep (c ∷ s) = elim (rsplit_once sep s) [
  | some (before, last) ↦ some (c ∷ before, last)
  | none ↦ if eqb (code c) sep then some ("", s) else none
]

-- `char::is_whitespace`: the property White_Space of Unicode.
unfoldable pub is_whitespace : ℕ → Bool
is_whitespace n =
    (leb 9 n && leb n 13)
    || eqb n 32
    || eqb n 0x85
    || eqb n 0xa0
    || eqb n 0x1680
    || (leb 0x2000 n && leb n 0x200a)
    || eqb n 0x2028
    || eqb n 0x2029
    || eqb n 0x202f
    || eqb n 0x205f
    || eqb n 0x3000

unfoldable pub trim_start : String → String
unfolding is_whitespace
trim_start [] = []
trim_start (c ∷ s) = let rest = trim_start s in if is_whitespace (code c) then rest else c ∷ s

unfoldable pub trim_end : String → String
unfolding is_whitespace
trim_end [] = []
trim_end (c ∷ s) =
    let rest = trim_end s in if is_blank rest && is_whitespace (code c) then [] else c ∷ rest

-- `str::trim`
unfoldable pub trim : String → String
unfolding trim_start trim_end
trim s = trim_start (trim_end s)

-- `[&str]::join(", ")`
unfoldable pub join_comma : List String → String
join_comma [] = ""
join_comma (x ∷ []) = x
join_comma (x ∷ y ∷ ys) = x +++ ", " +++ join_comma (y ∷ ys)

unfoldable pub is_prefix_of : String → String → Bool
is_prefix_of [] s = true
is_prefix_of (c ∷ t) [] = false
is_prefix_of (c ∷ t) (d ∷ s) = eqb (code c) (code d) && is_prefix_of t s

-- `str::contains(pat)`
unfoldable pub contains : String → String → Bool
unfolding is_prefix_of
contains [] pat = is_prefix_of pat []
contains (c ∷ s) pat = is_prefix_of pat (c ∷ s) || contains s pat

-- `sort()` on texts: stable, by the order of the UTF-8 bytes.
unfoldable pub insert_sorted : String → List String → List String
insert_sorted x [] = x ∷ []
insert_sorted x (y ∷ ys) =
    let rest = insert_sorted x ys in if is_le (String.compare x y) then x ∷ y ∷ ys else y ∷ rest

unfoldable pub sort : List String → List String
unfolding insert_sorted
sort [] = []
sort (x ∷ xs) = insert_sorted x (sort xs)

-- `iter().any(|x| x == id)`
abbrev pub has : String → List String → Bool
has id [] = false
has id (x ∷ xs) = x == id || has id xs
