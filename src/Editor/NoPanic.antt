-- ===== src/Editor/NoPanic.antt =====
-- Panics and safe screens: the top-level screen, and any key at all (`on_key` of
-- crates/collector/src/editor/app.rs).
use securitygingercia.Editor.Handle.{on_key, handle_screen, key_below, handle_key}
use securitygingercia.Doc.Save.{Disk, Environment, Platform}
use securitygingercia.Schema.Spec.{ComponentTypeSpec, ComponentCategory}
use securitygingercia.Editor.Top.{
  top_char, handle_top_level, add_to, open_id, remove_id, open_selected, spec_for, remove_selected,
}
use securitygingercia.Form.{or_else}
use securitygingercia.Doc.{pipelines_referencing, EditorDoc}
use securitygingercia.Keys.{is_char, KeyCode, KeyEvent, Toolkit}
use securitygingercia.Prelude.{
  nil-or-cons, chosen, ◌&&◌, arith, refl, suc, zero, code, eqb, ◌∙◌, eq_refl, [], sym,
  some-injective, ◌∷◌, ◌⊎◌, get_elem?, ℕ, String, Option, List, true, false, none, some, inl, inr,
  ◌≡◌, ◌>>=◌, ret, Returns, Returns->>=, Option-cases, has, sort, All-find, All-first?, find,
  first?,
}
use securitygingercia.Form
use securitygingercia.Json.{get, keys, Value, contains_key}
use securitygingercia.Json.Maps.{has-keys}
use securitygingercia.Doc.RoundTrip.{has-sort}
use securitygingercia.Schema.Types.{component_type, is_named, types_for}
use securitygingercia.Form.Registered.{IsSound, types_for-IsSound}
use securitygingercia.Keys.{is_char}
use securitygingercia.Editor.Handle.{handle_screen}
use securitygingercia.Editor.Safety.{IsSafe, new-Returns}
use securitygingercia.Editor.SafeKeys.{
  NextIsSafe, guarded, pipeline_fields-IsSound, handle_screen-IsSafe,
}
use securitygingercia.Editor.State.{
  default_screen, is_receivers, pipeline_fields, edit_component, TopTab, screen_accepts_help_hotkey,
  App, Screen, top_level, category, tab_map, ids_for_tab,
}

or_else-some :
    {A : Type 0} (a b : Option A) (x : A) → or_else a b ≡ some x → (a ≡ some x) ⊎ (b ≡ some x)
or_else-some none b x e = inr e
or_else-some (some y) b x e = inl e

has_of_get_elem? :
    (ids : List String) (i : ℕ) (id : String) → get_elem? ids i ≡ some id → has id ids ≡ true
has_of_get_elem? [] i id e = cc
has_of_get_elem? (x ∷ xs) zero id e = rw (some-injective _ _ e, eq_refl id) refl
has_of_get_elem? (x ∷ xs) (suc i) id e = ground (arith, has_of_get_elem? xs i id e)

-- A listed id is in the map of its tab.
pub listed :
    (tab : TopTab) (doc : EditorDoc) (i : ℕ) (id : String)
    → get_elem? (ids_for_tab tab doc) i ≡ some id
    → (value : Value) × (get id (tab_map (category tab) doc) ≡ some value)
unfolding ids_for_tab
listed tab doc i id e = elim (Option-cases (get id (tab_map (category tab) doc))) [
  | inl g ↦ absurd (cc (present, g))
  | inr found ↦ found
]
  where
    present : contains_key id (tab_map (category tab) doc) ≡ true
    present =
        sym (has-keys id (tab_map (category tab) doc))
        ∙ sym (has-sort id (keys (tab_map (category tab) doc)))
        ∙ has_of_get_elem? (sort (keys (tab_map (category tab) doc))) i id e

module _ {Input : Type 0} (kit : Toolkit Input) where
  spec_for-IsSound :
      (c : ComponentCategory) (id : String) (spec : ComponentTypeSpec)
      → spec_for kit c id ≡ some spec
      → IsSound spec.fields
  unfolding spec_for
  spec_for-IsSound c id spec e =
      elim (or_else-some (find (is_named (component_type id)) (types_for c)) (first? (types_for c))
        spec e) [
          | inl f ↦
              All-find (λ s. IsSound s.fields) (is_named (component_type id)) (types_for c) spec
                (types_for-IsSound c) f
          | inr f ↦ All-first? (λ s. IsSound s.fields) (types_for c) spec (types_for-IsSound c) f
        ]

  open_id-IsSafe :
      (tab : TopTab) (selected : ℕ) (doc : EditorDoc) (id : String) (value : Value)
      → get id (tab_map (category tab) doc) ≡ some value
      → Returns IsSafe (open_id kit tab selected doc id)
  unfolding open_id
  open_id-IsSafe tab selected doc id value e = elim (Option-cases (category tab)) [
    | inl g ↦
        rw (g, open_id)
          (rw (rw g at e) (
            new-Returns kit IsSafe none false pipeline_fields value _
              pipeline_fields-IsSound.editable (λ form w. w)))
    | inr (c, g) ↦ rw (g, open_id) (rw (rw g at e) (opened c (spec_for kit c id) refl))
  ]
    where
      opened :
          (c : ComponentCategory) (o : Option ComponentTypeSpec)
          → spec_for kit c id ≡ o
          → Returns IsSafe (elim o [
            | none ↦ ret (top_level tab selected)
            | some spec ↦ do
              form ← Form.new kit (some spec.type_name) false spec.fields value
              ret (edit_component c id form)
          ])
      opened c none f = tt
      opened c (some spec) f =
          new-Returns kit IsSafe (some spec.type_name) false spec.fields value _
            (spec_for-IsSound c id spec f).editable (λ form w. w)

  open_selected-IsSafe :
      (tab : TopTab) (selected : ℕ) (doc : EditorDoc)
      → Returns IsSafe (open_selected kit tab selected doc)
  unfolding open_selected
  open_selected-IsSafe tab selected doc =
      elim (Option-cases (get_elem? (ids_for_tab tab doc) selected)) [
        | inl e ↦ rw (e, open_selected) tt
        | inr (id, e) ↦
            rw (e, open_selected)
              (let (value, found) = listed tab doc selected id e in
                open_id-IsSafe tab selected doc id value found)
      ]

  remove_id-IsSafe :
      (tab : TopTab) (app : App Input) (id : String) → NextIsSafe kit (remove_id kit tab app id)
  unfolding remove_id
  remove_id-IsSafe tab app id = elim (Option-cases (category tab)) [
    | inl e ↦ rw (e, remove_id) tt
    | inr (c, e) ↦ elim (nil-or-cons (pipelines_referencing c id app.doc)) [
      | inl n ↦ rw (e, n, remove_id) tt
      | inr (name, names, n) ↦ rw (e, n, remove_id) tt
    ]
  ]

  remove_selected-IsSafe :
      (tab : TopTab) (selected : ℕ) (app : App Input)
      → NextIsSafe kit (remove_selected kit tab selected app)
  unfolding remove_selected
  remove_selected-IsSafe tab selected app =
      elim (Option-cases (get_elem? (ids_for_tab tab app.doc) selected)) [
        | inl e ↦ rw (e, remove_selected) tt
        | inr (id, e) ↦ rw (e, remove_selected) (remove_id-IsSafe tab app id)
      ]

  add_to-IsSafe : (tab : TopTab) → IsSafe (add_to kit tab)
  unfolding add_to category
  add_to-IsSafe TopTab.receivers = tt
  add_to-IsSafe TopTab.exporters = tt
  add_to-IsSafe TopTab.extensions = tt
  add_to-IsSafe TopTab.pipelines = tt

  module _ (platform : Platform) (env : Environment) where
    abbrev LeftIsSafe : App Input × Screen Input × Disk → Type 0
    LeftIsSafe (app, screen, disk) = IsSafe screen

    top_char-IsSafe :
        (n : ℕ) (tab : TopTab) (selected : ℕ) (app : App Input) (disk : Disk)
        → LeftIsSafe (top_char kit platform env n tab selected app disk)
    unfolding top_char
    top_char-IsSafe n tab selected app disk = chosen LeftIsSafe (eqb n b'q') _ _ tt (
        chosen LeftIsSafe (eqb n b'a') _ _ (add_to-IsSafe tab) (
          chosen LeftIsSafe (eqb n b'T') _ _ (chosen IsSafe (is_receivers tab) _ _ tt tt) (
            chosen LeftIsSafe (eqb n b'd') _ _ (remove_selected-IsSafe tab selected app)
              (chosen LeftIsSafe (eqb n b's') _ _ tt tt))))

    top_level-IsSafe :
        (tab : TopTab) (selected : ℕ) (code : KeyCode) (app : App Input) (disk : Disk)
        → Returns LeftIsSafe (handle_top_level kit platform env tab selected code app disk)
    unfolding handle_top_level
    top_level-IsSafe tab selected (KeyCode.char c) app disk =
        top_char-IsSafe (code c) tab selected app disk
    top_level-IsSafe tab selected KeyCode.enter app disk =
        Returns->>= IsSafe LeftIsSafe (open_selected kit tab selected app.doc) _
          (open_selected-IsSafe tab selected app.doc) (λ screen h. h)
    top_level-IsSafe tab selected KeyCode.delete app disk = remove_selected-IsSafe tab selected app
    top_level-IsSafe tab selected KeyCode.esc app disk = tt
    top_level-IsSafe tab selected KeyCode.tab app disk = tt
    top_level-IsSafe tab selected KeyCode.back_tab app disk = tt
    top_level-IsSafe tab selected KeyCode.left app disk = tt
    top_level-IsSafe tab selected KeyCode.right app disk = tt
    top_level-IsSafe tab selected KeyCode.up app disk = tt
    top_level-IsSafe tab selected KeyCode.down app disk = tt
    top_level-IsSafe tab selected (KeyCode.other n) app disk = tt

    next-IsSafe :
        (screen : Screen Input) (key : KeyEvent) (app : App Input) (disk : Disk)
        → IsSafe screen
        → Returns LeftIsSafe
            (handle_screen kit screen key app >>= (λ (app', screen'). ret (app', screen', disk)))
    next-IsSafe screen key app disk s =
        Returns->>= (NextIsSafe kit) LeftIsSafe (handle_screen kit screen key app)
          (λ (app', screen'). ret (app', screen', disk)) (handle_screen-IsSafe kit screen key app s)
          (λ next h. h)

    handle_key-IsSafe :
        (screen : Screen Input) (key : KeyEvent) (app : App Input) (disk : Disk)
        → IsSafe screen
        → Returns LeftIsSafe (handle_key kit platform env screen key app disk)
    unfolding handle_key
    handle_key-IsSafe (top_level tab selected) key app disk s =
        top_level-IsSafe tab selected key.code app disk
    handle_key-IsSafe screen key app disk s = next-IsSafe screen key app disk s

    -- What a key leaves has a safe screen.
    abbrev pub AppIsSafe : App Input × Disk → Type 0
    AppIsSafe (app, disk) = IsSafe app.screen

    key_below-IsSafe :
        (key : KeyEvent) (app : App Input) (disk : Disk)
        → IsSafe app.screen
        → Returns AppIsSafe (key_below kit platform env key app disk)
    unfolding key_below
    key_below-IsSafe key app disk s =
        Returns->>= LeftIsSafe AppIsSafe
          (handle_key kit platform env app.screen key (record app { screen = default_screen }) disk)
          _ (handle_key-IsSafe app.screen key (record app { screen = default_screen }) disk s)
          (λ left h. h)

    -- Where the forms of the screen are well-formed and the types and the templates that it names
    -- are registered, no key makes the editor panic, and the screen that it leaves is so as well.
    pub on_key-IsSafe :
        (key : KeyEvent) (app : App Input) (disk : Disk)
        → IsSafe app.screen
        → Returns AppIsSafe (on_key kit platform env key app disk)
    unfolding on_key
    on_key-IsSafe key app disk s =
        guarded AppIsSafe app.show_help (ret (record app { show_help = false }, disk)) _ s (
          guarded AppIsSafe (is_char b'?' key.code && screen_accepts_help_hotkey app.screen)
            (ret (record app { show_help = true }, disk)) _ s (key_below-IsSafe key app disk s))
