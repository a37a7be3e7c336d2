-- ===== src/Tests/Sessions.antt =====
-- The theorems on the editor's keys, at an editor of one document.
use securitygingercia.Editor.Edits.{AreUnique}
use securitygingercia.Json.Maps.{IsUnique}
use securitygingercia.Doc.Save.{Platform}
use securitygingercia.Editor.Reports.{on_key-IsReported, IsReported}
use securitygingercia.Editor.Saves.{on_key-saves, AppIs}
use securitygingercia.Prelude.{some, true, false, String, none, [], ◌≡◌, ◌≢◌, refl, Returns, ◌⊎◌}
use securitygingercia.Json.{get}
use securitygingercia.Editor.State.{Screen, App, TopTab, map_for, category, confirm_remove}
use securitygingercia.Editor.Handle.{on_key, confirmed}
use securitygingercia.Editor.Top.{remove_id}
use securitygingercia.Doc.{pipelines_referencing}
use securitygingercia.Editor.Removal.{IsGone, confirmed-IsGone, remove_id-IsGone}
use securitygingercia.Schema.Spec.{receiver}
use securitygingercia.Keys.{is_char, KeyCode}
use securitygingercia.Tests.Data.{not_temporary, text_kit, platform, env, doc, path, disk, press}

abbrev pub app : App String
app = record {
  config_path = path;
  doc = doc;
  screen = Screen.top_level TopTab.receivers 0;
  status_message = none;
  dirty = false;
  should_quit = false;
  show_help = false;
}

on_key-saves_example :
    Returns
      (AppIs text_kit platform env (press KeyCode.delete) app disk)
      (on_key text_kit platform env (press KeyCode.delete) app disk)
on_key-saves_example = on_key-saves text_kit platform env (press KeyCode.delete) app disk tt

-- A disk on which the temporary file cannot be renamed.
abbrev full : Platform
full = record platform { rename = some "no space left on device" }

on_key-IsReported_example :
    Returns
      (IsReported text_kit full env TopTab.receivers 0 (record app { dirty = true }) disk)
      (on_key text_kit full env (press (KeyCode.char "s")) (record app { dirty = true }) disk)
unfolding is_char
on_key-IsReported_example =
    on_key-IsReported text_kit full env TopTab.receivers 0 (press (KeyCode.char "s"))
      (record app { dirty = true }) disk not_temporary refl refl refl

pub doc-AreUnique : AreUnique doc
unfolding get
doc-AreUnique = record {
  receivers = (refl, tt);
  exporters = (refl, tt);
  extensions = tt;
  pipelines = (refl, tt);
}

receivers-IsUnique : IsUnique (map_for receiver doc)
unfolding map_for get
receivers-IsUnique = (refl, tt)

confirmed-IsGone_example :
    IsGone receiver "syslog/udp" (confirmed text_kit receiver "syslog/udp" app).0.doc
confirmed-IsGone_example = confirmed-IsGone text_kit receiver "syslog/udp" app receivers-IsUnique

remove_id-IsGone_example :
    IsGone receiver "syslog/udp" (remove_id text_kit TopTab.receivers app "syslog/udp").0.doc
    ⊎ ((remove_id text_kit TopTab.receivers app "syslog/udp" ≡ (
      app,
      confirm_remove receiver "syslog/udp" (pipelines_referencing receiver "syslog/udp" doc),
    ))
        × (pipelines_referencing receiver "syslog/udp" doc ≢ []))
unfolding category
remove_id-IsGone_example =
    remove_id-IsGone text_kit TopTab.receivers receiver "syslog/udp" app refl receivers-IsUnique
