-- ===== src/Templates/Params.antt =====
-- The parameters of the curated templates as fields of a form
-- (crates/collector/src/editor/templates.rs).
use securitygingercia.Prelude.{
  split, ◌==◌, String, true, List, [], ◌∷◌, ◌≡◌, refl, all, All, All-find, arith, some,
}
use securitygingercia.Form.Registered.{is_sound, IsSound, fields-IsSound}
use securitygingercia.Templates.Spec.{SourceTemplate}
use securitygingercia.Templates.Registry.{source_templates, find}

templates-IsSound :
    (ts : List SourceTemplate)
    → all (λ t. is_sound t.params) ts ≡ true
    → All (λ t. IsSound t.params) ts
templates-IsSound [] h = tt
templates-IsSound (t ∷ ts) h =
    (fields-IsSound t.params (ground arith), templates-IsSound ts (ground arith))

templates_check : all (λ t. is_sound t.params) source_templates ≡ true
unfolding is_sound source_templates split
templates_check = refl

-- The parameters of every template of the registry have keys that are apart from each other and
-- from `type`, and every enumeration among them has an option.
source_templates-IsSound : All (λ t. IsSound t.params) source_templates
source_templates-IsSound = templates-IsSound source_templates templates_check

pub find-IsSound : (key : String) (t : SourceTemplate) → find key ≡ some t → IsSound t.params
unfolding find
find-IsSound key t e =
    All-find (λ (t : SourceTemplate). IsSound t.params) (λ t. t.key == key) source_templates t
      source_templates-IsSound e
