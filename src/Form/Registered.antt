-- ===== src/Form/Registered.antt =====
-- What the forms rely on, of the registered types: a check of the tables of
-- crates/collector/src/editor/schema_registry.rs for keys that are apart from each other and from
-- `type`, and for options of every enumeration.
use securitygingercia.Prelude.{
  String, Bool, true, false, List, [], ◌∷◌, ◌≡◌, refl, ◌==◌, eq_iff, all, All, not, ◌&&◌, ◌||◌, inl,
  inr, Bool-cases, arith, is_empty, split,
}
use securitygingercia.Schema.Spec.{
  ComponentCategory, receiver, exporter, extension, FieldKind, FieldSpec, ComponentTypeSpec,
}
use securitygingercia.Schema.Types.{types_for, operator_types}
use securitygingercia.Schema.Receivers.{receiver_types}
use securitygingercia.Schema.Exporters.{exporter_types}
use securitygingercia.Schema.Extensions.{extension_types}
use securitygingercia.Schema.Operators.{operator_types as registered_operators}
use securitygingercia.Schema.PathLaws.{Diverge}
use securitygingercia.Form.Safety.{IsEditable, AreEditable}
use securitygingercia.Form.Reading.{Apart, ApartFromAll, AreApart}

abbrev diverge : List String → List String → Bool
diverge [] qs = false
diverge (p ∷ ps) [] = false
diverge (p ∷ ps) (q ∷ qs) = not (p == q) || diverge ps qs

diverge_sound : (ps qs : List String) → diverge ps qs ≡ true → Diverge ps qs
diverge_sound [] qs h = cc
diverge_sound (p ∷ ps) [] h = cc
diverge_sound (p ∷ ps) (q ∷ qs) h = elim (Bool-cases (p == q)) [
  | inl e ↦ inr ((eq_iff p q).0 e, diverge_sound ps qs (rw e at h))
  | inr e ↦ inl (λ same. cc (e, (eq_iff p q).1 same))
]

abbrev pub apart : String → String → Bool
apart a b = diverge (split b'.' a) (split b'.' b)

pub apart_sound : (a b : String) → apart a b ≡ true → Apart a b
apart_sound a b h = diverge_sound (split b'.' a) (split b'.' b) h

apart_from_all : String → List FieldSpec → Bool
apart_from_all path [] = true
apart_from_all path (s ∷ ss) = apart s.key path && apart_from_all path ss

are_apart : List FieldSpec → Bool
are_apart [] = true
are_apart (s ∷ ss) = apart_from_all s.key ss && are_apart ss

has_option : FieldKind → Bool
has_option (FieldKind.enum options) = not (is_empty options)
has_option _ = true

are_editable : List FieldSpec → Bool
are_editable [] = true
are_editable (s ∷ ss) = has_option s.kind && are_editable ss

and-left : (a b : Bool) → (a && b) ≡ true → a ≡ true
and-left a b h = ground arith

and-right : (a b : Bool) → (a && b) ≡ true → b ≡ true
and-right a b h = ground arith

apart_from_all_sound :
    (path : String) (ss : List FieldSpec) → apart_from_all path ss ≡ true → ApartFromAll path ss
unfolding apart_from_all
apart_from_all_sound path [] h = tt
apart_from_all_sound path (s ∷ ss) h = (
  diverge_sound _ _ (and-left (apart s.key path) _ h),
  apart_from_all_sound path ss (and-right (apart s.key path) _ h),
)

are_apart_sound : (ss : List FieldSpec) → are_apart ss ≡ true → AreApart ss
unfolding are_apart
are_apart_sound [] h = tt
are_apart_sound (s ∷ ss) h = (
  apart_from_all_sound s.key ss (and-left _ _ h),
  are_apart_sound ss (and-right (apart_from_all s.key ss) _ h),
)

has_option_sound : (kind : FieldKind) → has_option kind ≡ true → IsEditable kind
unfolding has_option
has_option_sound (FieldKind.enum []) h = cc
has_option_sound (FieldKind.enum (o ∷ os)) h = omega arith
has_option_sound FieldKind.str h = tt
has_option_sound FieldKind.bool h = tt
has_option_sound FieldKind.duration h = tt
has_option_sound FieldKind.string_list h = tt
has_option_sound FieldKind.operator_list h = tt

are_editable_sound : (ss : List FieldSpec) → are_editable ss ≡ true → AreEditable ss
unfolding are_editable
are_editable_sound [] h = tt
are_editable_sound (s ∷ ss) h = (
  has_option_sound s.kind (and-left _ _ h),
  are_editable_sound ss (and-right (has_option s.kind) _ h),
)

-- What a form needs of the fields of a type.
pub record IsSound (fields : List FieldSpec) : Type 0 where
  pub editable : AreEditable fields
  pub apart : AreApart fields
  pub type_apart : ApartFromAll "type" fields

unfoldable pub is_sound : List FieldSpec → Bool
unfolding are_apart apart_from_all are_editable has_option
is_sound fields = are_editable fields && (are_apart fields && apart_from_all "type" fields)

pub fields-IsSound : (fields : List FieldSpec) → is_sound fields ≡ true → IsSound fields
unfolding is_sound
fields-IsSound fields h = record {
  editable = are_editable_sound fields (and-left (are_editable fields) _ h);
  apart =
      are_apart_sound fields (and-left (are_apart fields) _ (and-right (are_editable fields) _ h));
  type_apart =
      apart_from_all_sound "type" fields
        (and-right (are_apart fields) _ (and-right (are_editable fields) _ h));
}

all-IsSound :
    (specs : List ComponentTypeSpec)
    → all (λ s. is_sound s.fields) specs ≡ true
    → All (λ s. IsSound s.fields) specs
all-IsSound [] h = tt
all-IsSound (s ∷ ss) h =
    (fields-IsSound s.fields (and-left _ _ h), all-IsSound ss (and-right (is_sound s.fields) _ h))

receivers_check : all (λ s. is_sound s.fields) receiver_types ≡ true
unfolding is_sound receiver_types split
receivers_check = refl

exporters_check : all (λ s. is_sound s.fields) exporter_types ≡ true
unfolding is_sound exporter_types split
exporters_check = refl

extensions_check : all (λ s. is_sound s.fields) extension_types ≡ true
unfolding is_sound extension_types split
extensions_check = refl

operators_check : all (λ s. is_sound s.fields) registered_operators ≡ true
unfolding is_sound registered_operators split
operators_check = refl

-- The fields of every registered type of every category have keys that are apart from each other
-- and from `type`, and every enumeration among them has an option.
pub types_for-IsSound :
    (category : ComponentCategory) → All (λ s. IsSound s.fields) (types_for category)
unfolding types_for
types_for-IsSound receiver = all-IsSound receiver_types receivers_check
types_for-IsSound exporter = all-IsSound exporter_types exporters_check
types_for-IsSound extension = all-IsSound extension_types extensions_check

-- The fields of every registered operator type have keys that are apart from each other and from
-- `type`, and every enumeration among them has an option.
pub operator_types-IsSound : All (λ s. IsSound s.fields) operator_types
unfolding operator_types
operator_types-IsSound = all-IsSound registered_operators operators_check
