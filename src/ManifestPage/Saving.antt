-- ===== src/ManifestPage/Saving.antt =====
-- The two ways to save a manifest, on its own page and on the page of the device.
use edge_guardian.Base.{
  ◌≡◌, ◌↔◌, Bool, true, ◌||◌, Option, some, Text, codes, truthy, text_eq_iff, arith,
}
use edge_guardian.DevicePage.{PageState, Manifest, key_pressed, has_manifest_changes, current_value}
use edge_guardian.ManifestPage.{value_in_editor, handle_save, shortcut}

-- The shortcut saves a text exactly if it is what the editor shows and is not empty, changed or not.
pub shortcut_iff :
    (ctrl meta : Bool) (key : Text) (manifest : Option Manifest) (editor_value : Option Text)
    (yaml : Text)
    → (shortcut ctrl meta key manifest editor_value ≡ some yaml) ↔ (
        ((ctrl || meta) ≡ true)
        × (key ≡ codes "s")
        × (value_in_editor manifest editor_value ≡ yaml)
        × (truthy yaml ≡ true))
unfolding shortcut handle_save
shortcut_iff ctrl meta key manifest editor_value yaml = ground (arith, text_eq_iff key (codes "s"))

-- Whatever a key press saves on the page of the device, it saves here with the same text in the editor.
pub key_pressed-shortcut :
    (ctrl meta : Bool) (key : Text) (manifest : Option Manifest) (s : PageState) (yaml : Text)
    → key_pressed ctrl meta key manifest s ≡ some yaml
    → shortcut ctrl meta key manifest s.editor_value ≡ some yaml
unfolding shortcut handle_save key_pressed has_manifest_changes current_value value_in_editor
key_pressed-shortcut ctrl meta key manifest s yaml h = ground arith
