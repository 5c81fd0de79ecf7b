-- ===== src/SettingsPage/Form.antt =====
-- The optimistic update of the organization: undone if it fails, invisible if it succeeds.
use edge_guardian.Base.{◌≡◌, ◌≢◌, refl, ap, sym, Option, none, some, Text, arith}
use edge_guardian.Api.Organizations.{Organization}
use edge_guardian.SettingsPage.{
  PageState, shown_name, shown_description, optimistic, update_started, update_succeeded,
  update_failed, failed, restored,
}

restored-optimistic :
    (s : PageState) (o : Option Organization)
    → s.org ≡ o
    → restored o (record s { org = optimistic s o }) ≡ s
unfolding optimistic
restored-optimistic s none e = ap (λ (c : Option Organization). record s { org = c }) (sym e)
restored-optimistic s (some o) e = ap (λ (c : Option Organization). record s { org = c }) (sym e)

-- If the update fails, the organization and the form are exactly as they were before it was tried,
-- with all that was typed.
pub update_failed-update_started :
    (message : Text) (s : PageState)
    → (update_failed message (update_started s).1 (update_started s).0).0 ≡ s
unfolding update_failed update_started failed
update_failed-update_started message s = restored-optimistic s s.org refl

-- If it succeeds, the fields show what was typed before, although the form has been reset, from the
-- moment the update was started on, where the organization is loaded.
pub shown_name-update_succeeded :
    (s : PageState)
    → s.org ≢ none
    → (shown_name (update_started s).0 ≡ shown_name s)
      × (shown_description (update_started s).0 ≡ shown_description s)
      × (shown_name (update_succeeded (update_started s).0).0 ≡ shown_name s)
      × (shown_description (update_succeeded (update_started s).0).0 ≡ shown_description s)
unfolding shown_name shown_description update_succeeded update_started optimistic
shown_name-update_succeeded s h = ground arith
