-- ===== src/DevicesPage/Steps/Clicks.antt =====
-- The selection as a set: what the clicks on the boxes of the rows make of it.
use edge_guardian.Base.{
  any, ltb, length, not, ◌≡◌, refl, ◌∙◌, ap, Bool, true, false, List, [], ◌∷◌, Text, text_eq,
  Bool-cases, inl, inr, arith, if◌then◌else◌, all, ◌==◌, and_split,
}
use edge_guardian.Api.Devices.{Device}
use edge_guardian.Sorting.{Comparison}
use edge_guardian.DevicesPage.Screen.{
  open_delete_confirm, copy_command, copy_timeout, set_enroll_dialog_open,
}
use edge_guardian.DevicesPage.Deletion.{settle_delete}
use edge_guardian.DevicesPage.{
  SortKey, set_search, choose_arch, toggle_state, clear_filters, choose_page_size, PageState,
  toggle_select, toggle_sort, same_key, previous_page, next_page, member,
}
use edge_guardian.DevicesPage.Sets.Subset.{Subset, set_of, has, flip, has-flip}
use edge_guardian.DevicesPage.Steps.{
  Event, search_changed, arch_chosen, state_clicked, row_checked, filters_cleared, header_checked,
  previous_clicked, next_clicked, sort_clicked, page_size_chosen, delete_clicked, copy_clicked,
  copy_timed_out, deletion_succeeded, delete_dialog_changed, enroll_dialog_changed, deletion_failed,
  step, run,
}

-- All events but a click on the box of the header, which selects a page at once.
unfoldable pub on_rows : Event → Bool
on_rows header_checked = false
on_rows _ = true

-- Whether a device is selected after some events, if it was or was not before: the box of its row turns
-- this over, and a deletion that succeeded selects nothing.
unfoldable pub is_chosen : Text → List Event → Bool → Bool
is_chosen x [] b = b
is_chosen x (row_checked id ∷ events) b = is_chosen x events (if text_eq id x then not b else b)
is_chosen x (deletion_succeeded ∷ events) b = is_chosen x events false
is_chosen x (_ ∷ events) b = is_chosen x events b

-- What an event does to the set.
unfoldable pub select : Event → Subset → Subset
select (row_checked id) s = flip id s
select deletion_succeeded s = set_of []
select _ s = s

unfoldable pub select_all : List Event → Subset → Subset
unfolding select
select_all [] s = s
select_all (e ∷ events) s = select_all events (select e s)

has-select_all :
    (x : Text) (events : List Event) (s : Subset)
    → has x (select_all events s) ≡ is_chosen x events (has x s)
unfolding select_all select is_chosen has set_of member any
has-select_all x [] s = refl
has-select_all x (row_checked id ∷ events) s =
    has-select_all x events (flip id s) ∙ ap (is_chosen x events) (has-flip id x s)
has-select_all x (deletion_succeeded ∷ events) s = has-select_all x events (set_of [])
has-select_all x (e ∷ events) s = has-select_all x events s

-- A handler that changes the state or leaves it, and not the selection.
either_selected :
    (b : Bool) (s t : PageState)
    → t.selected ≡ s.selected
    → (if b then s else t).selected ≡ s.selected
either_selected true s t h = refl
either_selected false s t h = h

toggle_sort_selected : (s : PageState) (key : SortKey) → (toggle_sort key s).selected ≡ s.selected
unfolding toggle_sort
toggle_sort_selected s key = elim (Bool-cases (same_key s.sort_key key)) [
  | inl e ↦ rw e refl
  | inr e ↦ rw e refl
]

opened_selected : (s : PageState) → (open_delete_confirm s).selected ≡ s.selected
unfolding open_delete_confirm
opened_selected s = elim (Bool-cases (ltb 0 (length s.selected))) [
  | inl e ↦ rw e refl
  | inr e ↦ rw e refl
]

module _ (lower : Text → Text) (locale_compare : Comparison Text) (devices : List Device) where
  selected-step :
      (s : PageState) (e : Event)
      → on_rows e ≡ true
      → set_of (step lower locale_compare devices s e).selected ≡ select e (set_of s.selected)
  unfolding step select set_of flip toggle_select on_rows set_search choose_arch toggle_state
      clear_filters choose_page_size previous_page next_page copy_command copy_timeout
      set_enroll_dialog_open settle_delete
  selected-step s (row_checked id) h = refl
  selected-step s header_checked h = absurd (ground (arith, h))
  selected-step s (sort_clicked key) h = ap set_of (toggle_sort_selected s key)
  selected-step s previous_clicked h = ap set_of (either_selected (s.page == 0) s _ refl)
  selected-step s next_clicked h = ap set_of (either_selected _ s _ refl)
  selected-step s (search_changed text) h = refl
  selected-step s (arch_chosen v) h = refl
  selected-step s (state_clicked v) h = refl
  selected-step s filters_cleared h = refl
  selected-step s (page_size_chosen n) h = refl
  selected-step s delete_clicked h = ap set_of (opened_selected s)
  selected-step s copy_clicked h = refl
  selected-step s copy_timed_out h = refl
  selected-step s (delete_dialog_changed b) h = refl
  selected-step s (enroll_dialog_changed b) h = refl
  selected-step s deletion_succeeded h = refl
  selected-step s (deletion_failed e) h = refl

  selected-run :
      (events : List Event) (s : PageState)
      → all on_rows events ≡ true
      → set_of (run lower locale_compare devices s events).selected
        ≡ select_all events (set_of s.selected)
  unfolding run select_all all
  selected-run [] s h = refl
  selected-run (e ∷ events) s h =
      let (now, later) = and_split (on_rows e) (all on_rows events) h in
      selected-run events (step lower locale_compare devices s e) later
      ∙ ap (select_all events) (selected-step s e now)

  -- Whatever else happens on the page, but for a click on the box of the header: a device is selected
  -- after some events exactly if the clicks on the box of its row, since the start or since the last
  -- deletion that succeeded, say so, where each click turns over whether it is selected, and such a
  -- deletion leaves nothing selected.
  pub member-run :
      (x : Text) (events : List Event) (s : PageState)
      → all on_rows events ≡ true
      → member x (run lower locale_compare devices s events).selected
        ≡ is_chosen x events (member x s.selected)
  unfolding has set_of
  member-run x events s h =
      ap (has x) (selected-run events s h) ∙ has-select_all x events (set_of s.selected)
