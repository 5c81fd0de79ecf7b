-- ===== src/Tests/Settings.antt =====
-- ui/app/(dashboard)/settings/page.tsx at concrete inputs.
use edge_guardian.Api.Organizations.{OrgMember, remove_member}
use edge_guardian.SettingsPage.Requests.{
  remove_confirmed, delete_token_confirmed, delete_key_confirmed,
}
use edge_guardian.SettingsPage.Tables.{member_name}
use edge_guardian.SettingsPage.Steps.{
  SettingsEvent, action, report, email, member_bin, error, fresh_page, run,
}
use edge_guardian.SettingsPage.Steps.Targets.{
  run-confirmed, IsRemoval, IsTokenDeletion, IsKeyDeletion,
}
use edge_guardian.Base.{ℕ, Text, List, ◌∷◌, refl, ◌≡◌, true, false, some, none, [], codes}
use edge_guardian.SettingsPage.{
  PageState, shown_name, shown_description, update_started, update_succeeded, update_failed,
}
use edge_guardian.SettingsPage.Form.{update_failed-update_started, shown_name-update_succeeded}

abbrev viewer : OrgMember
viewer = record {
  id = 7;
  user_id = 3;
  email = some (codes "eve@edge.example");
  display_name = none;
  avatar_url = none;
  role = codes "VIEWER";
  joined_at = [];
}

abbrev events : List SettingsEvent
events =
    action (email (codes "a@b.c"))
    ∷ action (member_bin viewer)
    ∷ report (error (codes "offline"))
    ∷ []

abbrev number : Text → ℕ
number s = 0

abbrev after_events : PageState
after_events = run events fresh_page

-- The member whose bin was clicked is removed once the question is answered.
removal :
    remove_confirmed number (codes "t") false after_events ≡ some (remove_member (codes "t") 7)
unfolding remove_confirmed run
removal = refl

run-confirmed_example :
    IsRemoval
      (λ m. m ≡ viewer)
      (λ t. ⊥)
      (λ k. ⊥)
      (codes "t")
      (remove_confirmed number (codes "t") false after_events)
    × IsTokenDeletion
        (λ m. m ≡ viewer)
        (λ t. ⊥)
        (λ k. ⊥)
        (codes "t")
        (delete_token_confirmed number (codes "t") false after_events)
    × IsKeyDeletion
        (λ m. m ≡ viewer)
        (λ t. ⊥)
        (λ k. ⊥)
        (codes "t")
        (delete_key_confirmed number (codes "t") false after_events)
run-confirmed_example =
    run-confirmed (λ m. m ≡ viewer) (λ t. ⊥) (λ k. ⊥) (codes "t") number events false
      (tt, (refl, (tt, tt)))

-- The name of a member without one is the part of the address before its sign.
name_of_viewer : member_name (codes "?") viewer ≡ codes "eve"
unfolding member_name
name_of_viewer = refl

abbrev page : PageState
page = record {
  org = some (record {
    id = 1;
    name = codes "Old";
    slug = codes "old";
    description = none;
    created_at = [];
  });
  org_name = some (codes "New");
  org_desc = none;
  org_dirty = true;
  invite_open = false;
  invite_email = [];
  invite_role = codes "VIEWER";
  remove_member_target = none;
  token_open = false;
  token_desc = [];
  token_max_uses = codes "100";
  created_token = none;
  delete_token_target = none;
  api_key_open = false;
  api_key_name = [];
  created_key = none;
  delete_key_target = none;
}

update_failed-update_started_example :
    (update_failed (codes "Forbidden") (update_started page).1 (update_started page).0).0 ≡ page
update_failed-update_started_example = update_failed-update_started (codes "Forbidden") page

shown_fields :
    (shown_name (update_started page).0 ≡ shown_name page)
    × (shown_description (update_started page).0 ≡ shown_description page)
    × (shown_name (update_succeeded (update_started page).0).0 ≡ shown_name page)
    × (shown_description (update_succeeded (update_started page).0).0 ≡ shown_description page)
shown_fields = shown_name-update_succeeded page (λ e. cc)
