-- ===== src/Prelude/TextLaws.antt =====
-- Laws of the operations on texts: splitting at a separator.
use securitygingercia.Prelude.{true, is_prefix_of, onto_first}
use Prim.Native.Nat.{ℕ, ◌<◌}
use Prim.Native.Char.{Char, code}
use Prim.Native.String.append
use Prim.Native.String.{String, count, [], ◌∷◌}
use mathlib.Core.Path.{◌≡◌, refl}
use mathlib.Core.Logic.{◌≢◌, inl, inr}
use mathlib.Core.Option.{none, some}
use mathlib.Core.List.{List, [], ◌∷◌}
use native.Mathlib.Omega.{arith}
use text.Mathlib.TextLemmas.{length-cons}
use securitygingercia.Prelude.Tests.{Bool-cases, Option-cases, eqb}
use securitygingercia.Prelude.Text.{◌+++◌, split, split_once}

-- A text without the separator is one part.
pub split_of_split_once-none :
    (sep : ℕ) (s : String) → split_once sep s ≡ none → split sep s ≡ s ∷ []
unfolding split split_once
split_of_split_once-none sep [] h = refl
split_of_split_once-none sep (c ∷ s) h = elim (Bool-cases (eqb (code c) sep)) [
  | inl e ↦ cc (rw e at h)
  | inr n ↦ elim (Option-cases (split_once sep s)) [
    | inl e ↦ rw (n, split_of_split_once-none sep s e)
    | inr ((a, b), e) ↦ cc (rw (n, e) at h)
  ]
]

-- A split at the first separator, and then of the rest.
pub split_of_split_once-some :
    (sep : ℕ) (s first rest : String)
    → split_once sep s ≡ some (first, rest)
    → split sep s ≡ first ∷ split sep rest
unfolding split split_once
split_of_split_once-some sep [] first rest h = cc
split_of_split_once-some sep (c ∷ s) first rest h = elim (Bool-cases (eqb (code c) sep)) [
  | inl e ↦ rw e (cc (rw e at h))
  | inr n ↦ elim (Option-cases (split_once sep s)) [
    | inl e ↦ cc (rw (n, e) at h)
    | inr ((a, b), e) ↦ rw (n, split_of_split_once-some sep s a b e) (cc (rw (n, e) at h))
  ]
]

pub count-split_once :
    (sep : ℕ) (s first rest : String) → split_once sep s ≡ some (first, rest) → count rest < count s
unfolding split_once
count-split_once sep [] first rest h = cc
count-split_once sep (c ∷ s) first rest h = elim (Bool-cases (eqb (code c) sep)) [
  | inl e ↦ ground (arith, length-cons c s)
  | inr n ↦ elim (Option-cases (split_once sep s)) [
    | inl e ↦ cc (rw (n, e) at h)
    | inr ((a, b), e) ↦ ground (arith, length-cons c s, count-split_once sep s a b e)
  ]
]

onto_first-ne-nil : (c : Char) (ps : List String) → onto_first c ps ≢ []
onto_first-ne-nil c [] = cc
onto_first-ne-nil c (p ∷ ps) = cc

-- A split has at least one part.
pub split-ne-nil : (sep : ℕ) (s : String) → split sep s ≢ []
unfolding split
split-ne-nil sep [] = cc
split-ne-nil sep (c ∷ s) = elim (Bool-cases (eqb (code c) sep)) [
  | inl e ↦ rw e (cc)
  | inr n ↦ rw n (onto_first-ne-nil c (split sep s))
]

eqb_refl : (n : ℕ) → eqb n n ≡ true
eqb_refl n = ground arith

pub is_prefix_of-append : (s t : String) → is_prefix_of s (s +++ t) ≡ true
unfolding is_prefix_of
is_prefix_of-append [] t = refl
is_prefix_of-append (c ∷ s) t = rw (append.cons c s t, eqb_refl (code c)) (is_prefix_of-append s t)

pub is_prefix_of_self : (s : String) → is_prefix_of s s ≡ true
unfolding is_prefix_of
is_prefix_of_self [] = refl
is_prefix_of_self (c ∷ s) = rw (eqb_refl (code c)) (is_prefix_of_self s)
