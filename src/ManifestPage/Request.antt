-- ===== src/ManifestPage/Request.antt =====
-- ui/app/(dashboard)/devices/[id]/manifest/page.tsx: the query, the request and what follows it.
use edge_guardian.Base.{
  Bool, true, false, ◌&&◌, Option, none, some, Text, codes, ◌++◌, [], truthy, get_or, if◌then◌else◌,
}
use edge_guardian.Api.Request.{Call}
use edge_guardian.Api.Devices.{get_device_manifest, update_device_manifest}

unfoldable pub editor_query : Option Text → Text → Option Call
unfolding get_device_manifest
editor_query access_token id =
    if truthy (get_or access_token []) && truthy id
    then some (get_device_manifest (get_or access_token []) id)
    else none

-- `mutationFn`, for the text that `handleSave` passes on
unfoldable pub save_request : Option Text → Text → Text → Call
unfolding update_device_manifest
save_request access_token id yaml_content =
    update_device_manifest (get_or access_token []) id yaml_content

-- What is left in the editor's state, the toast, and whether the manifest is read anew.
pub record Settled : Type 0 where
  pub editor_value : Option Text
  pub toast : Text
  pub is_error : Bool
  pub invalidated : Bool

unfoldable pub save_succeeded : Settled
save_succeeded = record {
  editor_value = none;
  toast = codes "Manifest saved. Changes will be applied on next reconciliation.";
  is_error = false;
  invalidated = true;
}

unfoldable pub save_failed : Text → Option Text → Settled
save_failed message editor_value = record {
  editor_value = editor_value;
  toast = codes "Failed to save: " ++ message;
  is_error = true;
  invalidated = false;
}

-- `onChange` of the editor: undefined is the empty text.
unfoldable pub text_changed : Option Text → Option Text
text_changed value = some (get_or value [])

unfoldable pub editor_theme : Bool → Text
editor_theme is_dark = if is_dark then codes "vs-dark" else codes "vs"
