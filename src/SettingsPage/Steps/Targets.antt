-- ===== src/SettingsPage/Steps/Targets.antt =====
-- What the three confirmations delete.
use edge_guardian.Base.{
  ℕ, ◌≡◌, ◌≢◌, refl, sym, Bool, true, false, Option, none, some, List, [], ◌∷◌, Text, codes,
  text_eq, text_eq_iff, arith, Bool-cases, Option-cases, inl, inr,
}
use edge_guardian.Api.Request.{Call}
use edge_guardian.Api.Organizations.{
  OrgMember, EnrollmentToken, ApiKeyEntry, remove_member, delete_enrollment_token, delete_api_key,
}
use edge_guardian.SettingsPage.{PageState, init_org_form}
use edge_guardian.SettingsPage.Requests.{
  can_remove, ask_remove_member, remove_confirmed, delete_token_confirmed, delete_key_confirmed,
  tab_changed,
}
use edge_guardian.SettingsPage.Steps.{
  fresh_page, run, Action, act, Report, receive, SettingsEvent, action, report, step, tab, name,
  description, email, role, token_name, max_uses, key_name, invite_dialog, token_dialog, key_dialog,
  remove_dialog, token_delete_dialog, key_delete_dialog, token_cancel, key_cancel, update,
  member_bin, token_bin, key_bin, loaded, updated, member_gone, invitation_gone, token_gone,
  key_gone, update_error, error, member_there, token_there, key_there,
}

-- What holds of the rows whose bins are there to be clicked.
module _ (Member : OrgMember → Type 0) (Token : EnrollmentToken → Type 0)
    (Key : ApiKeyEntry → Type 0) where
  abbrev pub IsRow : SettingsEvent → Type 0
  IsRow (action (member_bin m)) = Member m
  IsRow (action (token_bin t)) = Token t
  IsRow (action (key_bin k)) = Key k
  IsRow _ = Unit

  abbrev pub AreRows : List SettingsEvent → Type 0
  AreRows [] = Unit
  AreRows (e ∷ es) = IsRow e × AreRows es

  abbrev IsMemberTarget : Option OrgMember → Type 0
  IsMemberTarget none = Unit
  IsMemberTarget (some m) = Member m × (can_remove m ≡ true)

  abbrev IsTokenTarget : Option EnrollmentToken → Type 0
  IsTokenTarget none = Unit
  IsTokenTarget (some t) = Token t

  abbrev IsKeyTarget : Option ApiKeyEntry → Type 0
  IsKeyTarget none = Unit
  IsKeyTarget (some k) = Key k

  abbrev IsTargeted : PageState → Type 0
  IsTargeted s =
      IsMemberTarget s.remove_member_target
      × IsTokenTarget s.delete_token_target
      × IsKeyTarget s.delete_key_target

  init_org_form-IsTargeted : (s : PageState) → IsTargeted s → IsTargeted (init_org_form s)
  unfolding init_org_form
  init_org_form-IsTargeted s h = elim (Option-cases s.org) [ inl e ↦ rw e h | inr (o, e) ↦ rw e h ]

  tab_changed-IsTargeted : (v : Text) (s : PageState) → IsTargeted s → IsTargeted (tab_changed v s)
  unfolding tab_changed
  tab_changed-IsTargeted v s h = elim (Bool-cases (text_eq v (codes "general"))) [
    | inl e ↦ rw e (init_org_form-IsTargeted s h)
    | inr e ↦ rw e h
  ]

  ask_remove_member-IsTargeted :
      (m : OrgMember) (s : PageState) → Member m → IsTargeted s → IsTargeted (ask_remove_member m s)
  unfolding ask_remove_member
  ask_remove_member-IsTargeted m s r (t, u, k) = elim (Bool-cases (can_remove m)) [
    | inl e ↦ rw e ((r, e), u, k)
    | inr e ↦ rw e (t, u, k)
  ]

  act-IsTargeted :
      (a : Action) (s : PageState) → IsRow (action a) → IsTargeted s → IsTargeted (act a s)
  unfolding act
  act-IsTargeted (tab v) s r h = tab_changed-IsTargeted v s h
  act-IsTargeted (name v) s r h = h
  act-IsTargeted (description v) s r h = h
  act-IsTargeted (email v) s r h = h
  act-IsTargeted (role v) s r h = h
  act-IsTargeted (token_name v) s r h = h
  act-IsTargeted (max_uses v) s r h = h
  act-IsTargeted (key_name v) s r h = h
  act-IsTargeted (invite_dialog b) s r h = h
  act-IsTargeted (token_dialog true) s r h = h
  act-IsTargeted (token_dialog false) s r h = h
  act-IsTargeted (key_dialog true) s r h = h
  act-IsTargeted (key_dialog false) s r h = h
  act-IsTargeted (remove_dialog true) s r h = h
  act-IsTargeted (remove_dialog false) s r (m, t, k) = (tt, t, k)
  act-IsTargeted (token_delete_dialog true) s r h = h
  act-IsTargeted (token_delete_dialog false) s r (m, t, k) = (m, tt, k)
  act-IsTargeted (key_delete_dialog true) s r h = h
  act-IsTargeted (key_delete_dialog false) s r (m, t, k) = (m, t, tt)
  act-IsTargeted token_cancel s r h = h
  act-IsTargeted key_cancel s r h = h
  act-IsTargeted update s r h = h
  act-IsTargeted (member_bin m) s r h = ask_remove_member-IsTargeted m s r h
  act-IsTargeted (token_bin t) s r (m, _, k) = (m, r, k)
  act-IsTargeted (key_bin k) s r (m, t, _) = (m, t, r)

  receive-IsTargeted : (r : Report) (s : PageState) → IsTargeted s → IsTargeted (receive r s)
  unfolding receive
  receive-IsTargeted (loaded o) s h = h
  receive-IsTargeted updated s h = h
  receive-IsTargeted (update_error message none) s h = h
  receive-IsTargeted (update_error message (some o)) s h = h
  receive-IsTargeted (error message) s h = h
  receive-IsTargeted (member_there status) s h = h
  receive-IsTargeted member_gone s (m, t, k) = (tt, t, k)
  receive-IsTargeted invitation_gone s h = h
  receive-IsTargeted (token_there secret) s h = h
  receive-IsTargeted token_gone s (m, t, k) = (m, tt, k)
  receive-IsTargeted (key_there secret) s h = h
  receive-IsTargeted key_gone s (m, t, k) = (m, t, tt)

  run-IsTargeted :
      (es : List SettingsEvent) (s : PageState) → AreRows es → IsTargeted s → IsTargeted (run es s)
  unfolding run step
  run-IsTargeted [] s r h = h
  run-IsTargeted (action a ∷ es) s (r, rs) h =
      run-IsTargeted es (act a s) rs (act-IsTargeted a s r h)
  run-IsTargeted (report x ∷ es) s (r, rs) h =
      run-IsTargeted es (receive x s) rs (receive-IsTargeted x s h)

  can_remove-owner : (m : OrgMember) → can_remove m ≡ true → m.role ≢ codes "OWNER"
  unfolding can_remove
  can_remove-owner m h e = ground (arith, text_eq_iff m.role (codes "OWNER"))

  module _ (token : Text) where
    -- What is sent, if anything, removes a member whose row was there and who is no owner; revokes a
    -- token whose row was there; revokes a key whose row was there.
    abbrev pub IsRemoval : Option Call → Type 0
    IsRemoval none = Unit
    IsRemoval (some c) =
        (m : OrgMember) × Member m × (m.role ≢ codes "OWNER") × (c ≡ remove_member token m.id)

    abbrev pub IsTokenDeletion : Option Call → Type 0
    IsTokenDeletion none = Unit
    IsTokenDeletion (some c) =
        (t : EnrollmentToken) × Token t × (c ≡ delete_enrollment_token token t.id)

    abbrev pub IsKeyDeletion : Option Call → Type 0
    IsKeyDeletion none = Unit
    IsKeyDeletion (some c) = (k : ApiKeyEntry) × Key k × (c ≡ delete_api_key token k.id)

    module _ (number : Text → ℕ) where
      remove_confirmed-IsRemoval :
          (is_pending : Bool) (s : PageState) (target : Option OrgMember)
          → target ≡ s.remove_member_target
          → IsMemberTarget target
          → IsRemoval (remove_confirmed number token is_pending s)
      unfolding remove_confirmed
      remove_confirmed-IsRemoval true s target e h = tt
      remove_confirmed-IsRemoval false s none e h = rw (sym e) tt
      remove_confirmed-IsRemoval false s (some m) e (r, c) =
          rw (sym e) (m, r, can_remove-owner m c, refl)

      delete_token_confirmed-IsTokenDeletion :
          (is_pending : Bool) (s : PageState) (target : Option EnrollmentToken)
          → target ≡ s.delete_token_target
          → IsTokenTarget target
          → IsTokenDeletion (delete_token_confirmed number token is_pending s)
      unfolding delete_token_confirmed
      delete_token_confirmed-IsTokenDeletion true s target e h = tt
      delete_token_confirmed-IsTokenDeletion false s none e h = rw (sym e) tt
      delete_token_confirmed-IsTokenDeletion false s (some t) e r = rw (sym e) (t, r, refl)

      delete_key_confirmed-IsKeyDeletion :
          (is_pending : Bool) (s : PageState) (target : Option ApiKeyEntry)
          → target ≡ s.delete_key_target
          → IsKeyTarget target
          → IsKeyDeletion (delete_key_confirmed number token is_pending s)
      unfolding delete_key_confirmed
      delete_key_confirmed-IsKeyDeletion true s target e h = tt
      delete_key_confirmed-IsKeyDeletion false s none e h = rw (sym e) tt
      delete_key_confirmed-IsKeyDeletion false s (some k) e r = rw (sym e) (k, r, refl)

      -- After any events on the settings page, where a bin is clicked only in the row of a member, a
      -- token or a key that is there: the three confirmations send a request, if any, that removes such
      -- a member, who is no owner, or revokes such a token or such a key.
      pub run-confirmed :
          (es : List SettingsEvent) (is_pending : Bool)
          → AreRows es
          → IsRemoval (remove_confirmed number token is_pending (run es fresh_page))
            × IsTokenDeletion (delete_token_confirmed number token is_pending (run es fresh_page))
            × IsKeyDeletion (delete_key_confirmed number token is_pending (run es fresh_page))
      run-confirmed es is_pending rows =
          let s = run es fresh_page in
          let (m, t, k) = run-IsTargeted es fresh_page rows (tt, tt, tt) in
          (
            remove_confirmed-IsRemoval is_pending s s.remove_member_target refl m,
            delete_token_confirmed-IsTokenDeletion is_pending s s.delete_token_target refl t,
            delete_key_confirmed-IsKeyDeletion is_pending s s.delete_key_target refl k,
          )
