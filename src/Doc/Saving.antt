-- ===== src/Doc/Saving.antt =====
-- What a save does to the disk, whatever the platform answers: `save_with_binary` and
-- `atomic_write` of crates/collector/src/editor/model.rs.
use securitygingercia.Doc.Validation.{Result-cases, IsAccepted, validate_with_binary_iff}
use securitygingercia.Doc.RoundTrip.{of_value-to_value}
use text.Mathlib.TextLemmas.{append_assoc, append_cancel_left}
use securitygingercia.Prelude.{
  ◌+++◌, ◌∙◌, sym, rsplit_once, ap, is_blank, if◌then◌else◌, Bool, String, true, false, Option,
  none, some, Result, ok, err, map_err, arith, ◌≡◌, ◌≢◌, refl, inl, inr, eq_iff, eq_refl,
}
use securitygingercia.Doc.{EditorDoc, to_value}
use securitygingercia.Doc.Save.{
  parse, load, EditorError, io, FilePath, dotted, same_path, display, with_extension, Disk,
  Platform, validate_with_binary, atomic_write, save_with_binary,
}

abbrev pub tmp_path : FilePath → FilePath
tmp_path path = with_extension "yaml.tmp" path

display-tmp_path : (p : FilePath) → display (tmp_path p) ≡ p.dir +++ (p.stem +++ ".yaml.tmp")
unfolding display with_extension rsplit_once
display-tmp_path p = ap (λ s. p.dir +++ s) (append_assoc p.stem ".yaml" ".tmp")

-- The text of the extension of a path is not that of its temporary neighbour.
dotted-tmp : (e : Option String) → e ≢ some "yaml.tmp" → ".yaml.tmp" ≢ dotted e
dotted-tmp none h q = cc
dotted-tmp (some e) h q = h (ap some (sym (append_cancel_left "." "yaml.tmp" e q)))

display-tmp : (p : FilePath) → p.extension ≢ some "yaml.tmp" → display (tmp_path p) ≢ display p
unfolding display
display-tmp p h q =
    dotted-tmp p.extension h
      (append_cancel_left p.stem _ _ (append_cancel_left p.dir _ _ (sym (display-tmp_path p) ∙ q)))

same_path_refl : (p : FilePath) → same_path p p ≡ true
same_path_refl p = eq_refl (display p)

apart_paths : (p q : FilePath) → display p ≢ display q → same_path p q ≡ false
apart_paths p q h = ground (arith, eq_iff (display p) (display q))

same_path-tmp : (p : FilePath) → p.extension ≢ some "yaml.tmp" → same_path (tmp_path p) p ≡ false
same_path-tmp p h = apart_paths (tmp_path p) p (display-tmp p h)

same_path-path : (p : FilePath) → p.extension ≢ some "yaml.tmp" → same_path p (tmp_path p) ≡ false
same_path-path p h = apart_paths p (tmp_path p) (λ q. display-tmp p h (sym q))

-- Another file than the two that a write touches.
abbrev pub IsOther : FilePath → FilePath → Type 0
IsOther path other = (same_path path other ≡ false) × (same_path (tmp_path path) other ≡ false)

-- What `atomic_write` leaves: all of the new contents, or the file as it was.
abbrev pub IsAtomic : FilePath → String → Disk → Result String (Unit {0}) × Disk → Type 0
IsAtomic path contents disk (ok _, disk') =
    (disk' path ≡ some contents) × (disk' (tmp_path path) ≡ none)
IsAtomic path contents disk (err _, disk') = disk' path ≡ disk path

module _ (platform : Platform) (path : FilePath) where
  atomic_write-IsAtomic :
      (contents : String) (disk : Disk)
      → path.extension ≢ some "yaml.tmp"
      → IsAtomic path contents disk (atomic_write platform path contents disk)
  unfolding atomic_write
  atomic_write-IsAtomic contents disk h = ground (
    arith,
    same_path_refl path,
    same_path_refl (tmp_path path),
    same_path-tmp path h,
    same_path-path path h,
  )

  atomic_write-other :
      (contents : String) (disk : Disk) (other : FilePath)
      → IsOther path other
      → (atomic_write platform path contents disk).1 other ≡ disk other
  unfolding atomic_write
  atomic_write-other contents disk other h = ground arith

-- A save that succeeds has been accepted by the validator, with the placeholders in, and has put
-- the whole document at the path; one that fails leaves the file at the path as it was.
abbrev pub SaveOutcome :
    Platform → FilePath → String → EditorDoc → Disk → Result EditorError (Unit {0}) × Disk → Type 0
SaveOutcome platform path bin doc disk (ok _, disk') =
    (text : String) × (platform.to_yaml (to_value doc) ≡ ok text)
    × (disk' path ≡ some text)
    × (disk' (tmp_path path) ≡ none)
    × (validate_with_binary platform doc bin ≡ ok tt)
SaveOutcome platform path bin doc disk (err _, disk') = disk' path ≡ disk path

saved :
    (platform : Platform) (path : FilePath) (bin : String) (doc : EditorDoc) (disk : Disk)
    (text : String) (result : Result String (Unit {0}) × Disk)
    → platform.to_yaml (to_value doc) ≡ ok text
    → validate_with_binary platform doc bin ≡ ok tt
    → IsAtomic path text disk result
    → SaveOutcome platform path bin doc disk (map_err (io (display path)) result.0, result.1)
saved platform path bin doc disk text (ok r, disk') yaml valid h = (text, yaml, h.0, h.1, valid)
saved platform path bin doc disk text (err e, disk') yaml valid h = h

-- Whatever the platform answers, a save to a path whose extension is not `yaml.tmp` either
-- succeeds, and then the validator has accepted the document, the path holds its whole text and
-- the temporary file is gone; or it fails, and the path holds what it held.
pub save_with_binary-outcome :
    (platform : Platform) (path : FilePath) (bin : String) (doc : EditorDoc) (disk : Disk)
    → path.extension ≢ some "yaml.tmp"
    → SaveOutcome platform path bin doc disk (save_with_binary platform doc path bin disk)
unfolding save_with_binary
save_with_binary-outcome platform path bin doc disk h =
    elim (Result-cases (validate_with_binary platform doc bin)) [
      | inr (e, q) ↦ rw (q, save_with_binary) refl
      | inl (u, q) ↦ elim (Result-cases (platform.to_yaml (to_value doc))) [
        | inr (e, y) ↦ rw (q, y, save_with_binary) refl
        | inl (text, y) ↦
            rw (q, y, save_with_binary)
              (saved platform path bin doc disk text (atomic_write platform path text disk) y q
                (atomic_write-IsAtomic platform path text disk h))
      ]
    ]

-- No save touches a file other than the one at the path and its temporary neighbour.
pub save_with_binary-other :
    (platform : Platform) (path other : FilePath) (bin : String) (doc : EditorDoc) (disk : Disk)
    → IsOther path other
    → (save_with_binary platform doc path bin disk).1 other ≡ disk other
unfolding save_with_binary
save_with_binary-other platform path other bin doc disk h =
    elim (Result-cases (validate_with_binary platform doc bin)) [
      | inr (e, q) ↦ rw (q, save_with_binary) refl
      | inl (u, q) ↦ elim (Result-cases (platform.to_yaml (to_value doc))) [
        | inr (e, y) ↦ rw (q, y, save_with_binary) refl
        | inl (text, y) ↦
            rw (q, y, save_with_binary) (atomic_write-other platform path text disk other h)
      ]
    ]

-- The calls of `atomic_write` all succeed.
pub record IsWritable (platform : Platform) (path : FilePath) : Type 0 where
  pub dir : platform.create_dir_all path.dir ≡ none
  pub create : platform.create ≡ none
  pub write : platform.write_all ≡ none
  pub sync : platform.sync_all ≡ none
  pub rename : platform.rename ≡ none

-- On a platform that accepts the document and can write and read, and whose YAML text of the
-- document is read back as it was written, a save to a path whose extension is not `yaml.tmp`
-- succeeds and a load of the path gives the document back.
pub load-save_with_binary :
    (platform : Platform) (path : FilePath) (bin : String) (doc : EditorDoc) (disk : Disk)
    (text : String)
    → path.extension ≢ some "yaml.tmp"
    → IsAccepted platform doc bin
    → IsWritable platform path
    → platform.to_yaml (to_value doc) ≡ ok text
    → platform.from_yaml text ≡ ok (to_value doc)
    → platform.read ≡ none
    → ((save_with_binary platform doc path bin disk).0 ≡ ok tt)
      × (load platform path (save_with_binary platform doc path bin disk).1 ≡ ok doc)
unfolding save_with_binary load parse
load-save_with_binary platform path bin doc disk text h a w y back r = (
  succeeds,
  loads (save_with_binary platform doc path bin disk) succeeds
      (save_with_binary-outcome platform path bin doc disk h),
)
  where
    valid : validate_with_binary platform doc bin ≡ ok tt
    valid = (validate_with_binary_iff platform doc bin).1 a

    no_dir : (b : Bool) → (if b then none else platform.create_dir_all path.dir) ≡ none
    no_dir true = refl
    no_dir false = w.dir

    succeeds : (save_with_binary platform doc path bin disk).0 ≡ ok tt
    succeeds =
        rw
          (
            valid,
            y,
            no_dir (is_blank path.dir),
            w.create,
            w.write,
            w.sync,
            w.rename,
            save_with_binary,
            atomic_write,
          )
          refl

    loads :
        (result : Result EditorError (Unit {0}) × Disk)
        → result.0 ≡ ok tt
        → SaveOutcome platform path bin doc disk result
        → load platform path result.1 ≡ ok doc
    loads (ok u, disk') e (text', y', kept, gone, v) =
        let same : text' ≡ text = cc in
        rw (r, kept, load, same, back, parse) (ap ok (of_value-to_value doc))
    loads (err x, disk') e o = cc
