-- ===== src/ManifestPage.antt =====
-- ui/app/(dashboard)/devices/[id]/manifest/page.tsx: the editor of a manifest on a page of its own.
pub mod Saving
pub mod Request
use edge_guardian.Base.{
  Bool, not, ◌&&◌, ◌||◌, Option, none, some, Text, codes, truthy, text_eq, if◌then◌else◌, get_or,
}
use edge_guardian.DevicePage.{Manifest, initial_yaml, differs}

-- `currentValue`, where the state is the text in the editor, if it was touched.
unfoldable pub value_in_editor : Option Manifest → Option Text → Text
value_in_editor manifest editor_value = get_or editor_value (initial_yaml manifest)

-- `handleSave`: the text that is sent, if any.
unfoldable pub handle_save : Option Manifest → Option Text → Option Text
unfolding value_in_editor
handle_save manifest editor_value =
    if truthy (value_in_editor manifest editor_value)
    then some (value_in_editor manifest editor_value)
    else none

-- The handler of the keyboard.
unfoldable pub shortcut : Bool → Bool → Text → Option Manifest → Option Text → Option Text
unfolding handle_save
shortcut ctrl meta key manifest editor_value =
    if (ctrl || meta) && text_eq key (codes "s") then handle_save manifest editor_value else none

unfoldable pub has_changes : Option Manifest → Option Text → Bool
has_changes manifest editor_value = differs editor_value (initial_yaml manifest)

-- The button, which is disabled without changes and while a mutation runs.
unfoldable pub button_clicked : Bool → Option Manifest → Option Text → Option Text
unfolding has_changes handle_save
button_clicked is_pending manifest editor_value =
    if not (has_changes manifest editor_value) || is_pending
    then none
    else handle_save manifest editor_value
