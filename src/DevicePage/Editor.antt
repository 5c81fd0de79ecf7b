-- ===== src/DevicePage/Editor.antt =====
-- When the manifest is saved.
use edge_guardian.Base.{
  ◌≡◌, ◌||◌, ◌≢◌, ◌↔◌, Bool, true, Option, some, Text, codes, truthy, text_eq_iff, arith,
  Option-cases, inl, inr,
}
use edge_guardian.DevicePage.{
  PageState, Manifest, initial_yaml, current_value, has_manifest_changes, key_pressed,
}

-- A key press saves a text exactly if it is the key s with Ctrl or the command key, and the text is in
-- the editor, differs from the manifest that was loaded and is not empty.
pub key_pressed_iff :
    (ctrl meta : Bool) (key : Text) (manifest : Option Manifest) (s : PageState) (yaml : Text)
    → (key_pressed ctrl meta key manifest s ≡ some yaml) ↔ (
        ((ctrl || meta) ≡ true)
        × (key ≡ codes "s")
        × (s.editor_value ≡ some yaml)
        × (yaml ≢ initial_yaml manifest)
        × (truthy yaml ≡ true))
unfolding key_pressed has_manifest_changes current_value
key_pressed_iff ctrl meta key manifest s yaml = elim (Option-cases s.editor_value) [
  | inl e ↦ ground (arith, text_eq_iff key (codes "s"))
  | inr (v, e) ↦ ground (arith, text_eq_iff key (codes "s"), text_eq_iff v (initial_yaml manifest))
]
