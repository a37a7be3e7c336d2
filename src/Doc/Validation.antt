-- ===== src/Doc/Validation.antt =====
-- When a validation passes: `validate_with_binary` of crates/collector/src/editor/model.rs.
use securitygingercia.Prelude.{
  ◌+++◌, ◌↔◌, String, true, none, Result, ok, err, arith, ◌≡◌, refl, ◌⊎◌, inl, inr,
}
use securitygingercia.Doc.{placeholder_for_validation, EditorDoc, to_value}
use securitygingercia.Doc.Save.{Output, Platform, validate_with_binary}

pub Result-cases :
    {E A : Type 0} (r : Result E A) → ((a : A) × (r ≡ ok a)) ⊎ ((e : E) × (r ≡ err e))
Result-cases (ok a) = inl (a, refl)
Result-cases (err e) = inr (e, refl)

-- What the validator has to have been shown, and to have answered, for a validation to pass.
pub record IsAccepted (platform : Platform) (doc : EditorDoc) (bin : String) : Type 0 where
  pub text : String
  pub tmp : String
  pub output : Output
  pub shown : platform.to_yaml (placeholder_for_validation (to_value doc)) ≡ ok text
  pub stored : platform.temp_file ≡ ok tmp
  pub filled : (platform.temp_write ≡ none) × (platform.temp_flush ≡ none)
  pub answered : platform.run bin ("file:" +++ tmp) text ≡ ok output
  pub success : output.success ≡ true

validate_sound :
    (platform : Platform) (doc : EditorDoc) (bin : String)
    → validate_with_binary platform doc bin ≡ ok tt
    → IsAccepted platform doc bin
unfolding validate_with_binary
validate_sound platform doc bin h =
    elim (Result-cases (platform.to_yaml (placeholder_for_validation (to_value doc)))) [
      | inr (e, y) ↦ cc (rw (y, validate_with_binary) at h)
      | inl (text, y) ↦ elim (Result-cases platform.temp_file) [
        | inr (e, f) ↦ cc (rw (y, f, validate_with_binary) at h)
        | inl (tmp, f) ↦ elim (Result-cases (platform.run bin ("file:" +++ tmp) text)) [
          | inr (e, r) ↦ ground arith
          | inl (output, r) ↦ record {
            text = text;
            tmp = tmp;
            output = output;
            shown = y;
            stored = f;
            filled = (ground arith, ground arith);
            answered = r;
            success = ground arith;
          }
        ]
      ]
    ]

validate_complete :
    (platform : Platform) (doc : EditorDoc) (bin : String)
    → IsAccepted platform doc bin
    → validate_with_binary platform doc bin ≡ ok tt
unfolding validate_with_binary
validate_complete platform doc bin a =
    rw (a.shown, a.stored, a.filled.0, a.filled.1, a.answered, a.success, validate_with_binary) refl

-- A validation passes exactly when every call before it succeeded and the validator, given the
-- document with placeholders, exited with success.
pub validate_with_binary_iff :
    (platform : Platform) (doc : EditorDoc) (bin : String)
    → (validate_with_binary platform doc bin ≡ ok tt) ↔ IsAccepted platform doc bin
validate_with_binary_iff platform doc bin =
    (validate_sound platform doc bin, validate_complete platform doc bin)
