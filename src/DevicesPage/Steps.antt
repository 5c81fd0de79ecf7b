-- ===== src/DevicesPage/Steps.antt =====
-- The events of the page, one after the other: the user never stands on a page that is not there,
-- and the selection stays a set.
pub mod Clicks
use edge_guardian.Base.{
  Bool, true, false, any, some, none, ltb, ap₂, All, ℕ, ◌+◌, ◌-◌, ◌<◌, ◌≡◌, ◌⊎◌, inl, inr, refl, ap,
  sym, ◌∙◌, List, [], ◌∷◌, Text, length, arith, Bool-cases, leb, ◌==◌,
}
use edge_guardian.Api.Devices.{Device}
use edge_guardian.Paging.{total_pages}
use edge_guardian.Sorting.{Comparison}
use edge_guardian.Sorting.Laws.{length-sort}
use edge_guardian.DevicesPage.Sets.{IsDistinct, toggle-IsDistinct, to_set_from-IsDistinct}
use edge_guardian.Http.{Failure}
use edge_guardian.DevicesPage.Screen.{
  page_sizes, open_delete_confirm, copy_command, copy_timeout, set_enroll_dialog_open,
}
use edge_guardian.DevicesPage.Deletion.{settle_delete}
use edge_guardian.DevicesPage.{
  PageState, SortKey, SortDir, asc, initial, toggle_state, same_key, opposite, toggle_sort,
  clear_filters, set_search, choose_arch, choose_page_size, toggle_select, filtered, selection,
  paginated, toggle_select_all, previous_page, next_page,
}

-- What the user does on the page, and the end of a bulk deletion that the user has confirmed.
pub data Event : Type 0 where
  search_changed arch_chosen state_clicked row_checked : Text → Event
  filters_cleared header_checked previous_clicked next_clicked : Event
  sort_clicked : SortKey → Event
  page_size_chosen : ℕ → Event
  delete_clicked copy_clicked copy_timed_out deletion_succeeded : Event
  delete_dialog_changed enroll_dialog_changed : Bool → Event
  deletion_failed : Failure → Event

-- A size of a page is one of those in the select.
abbrev pub IsOffered : Event → Type 0
IsOffered (page_size_chosen n) = any (◌==◌ n) page_sizes ≡ true
IsOffered _ = Unit

offered_size : (n : ℕ) → any (◌==◌ n) page_sizes ≡ true → 0 < n
unfolding any
offered_size n h = ground (arith, h)

module _ (lower : Text → Text) (locale_compare : Comparison Text) (devices : List Device) where
  -- The handler of each event.
  pub step : PageState → Event → PageState
  step s (search_changed text) = set_search text s
  step s (arch_chosen v) = choose_arch v s
  step s (state_clicked state) = toggle_state state s
  step s (row_checked id) = toggle_select id s
  step s filters_cleared = clear_filters s
  step s header_checked = toggle_select_all lower locale_compare devices s
  step s previous_clicked = previous_page lower locale_compare s
  step s next_clicked = next_page lower locale_compare devices s
  step s (sort_clicked key) = toggle_sort key s
  step s (page_size_chosen n) = choose_page_size n s
  step s delete_clicked = open_delete_confirm s
  step s copy_clicked = (copy_command s).0
  step s copy_timed_out = copy_timeout s
  step s (delete_dialog_changed b) = record s { delete_confirm_open = b }
  step s (enroll_dialog_changed b) = set_enroll_dialog_open b s
  step s deletion_succeeded = (settle_delete [] [] s none).0
  step s (deletion_failed e) = (settle_delete [] [] s (some e)).0

  pub run : PageState → List Event → PageState
  run s [] = s
  run s (e ∷ events) = run (step s e) events

  -- The number of pages that the filters leave.
  abbrev pub pages : PageState → ℕ
  pages s = total_pages (length (filtered lower locale_compare s devices)) s.page_size

  pub record IsSound (s : PageState) : Type 0 where
    pub sized : 0 < s.page_size
    pub on_page : (s.page ≡ 0) ⊎ (s.page < pages s)
    pub distinct : IsDistinct s.selected

  length-filtered :
      (s : PageState)
      → length (filtered lower locale_compare s devices)
        ≡ length (selection lower locale_compare s devices)
  unfolding filtered
  length-filtered s = length-sort _ (selection lower locale_compare s devices)

  pages-selection :
      (s : PageState)
      → pages s ≡ total_pages (length (selection lower locale_compare s devices)) s.page_size
  pages-selection s = ap (λ (n : ℕ). total_pages n s.page_size) (length-filtered s)

  -- The order and the selection have no part in the number of pages.
  pages_congr :
      (s t : PageState)
      → selection lower locale_compare t devices ≡ selection lower locale_compare s devices
      → t.page_size ≡ s.page_size
      → pages t ≡ pages s
  pages_congr s t e z =
      pages-selection t
      ∙ ap₂ (λ (xs : List Device) (n : ℕ). total_pages (length xs) n) e z
      ∙ sym (pages-selection s)

  ordered-IsSound :
      (s : PageState) (key : SortKey) (dir : SortDir)
      → IsSound s
      → IsSound (record s { sort_key = key; sort_dir = dir })
  ordered-IsSound s key dir h =
      let t : PageState = record s { sort_key = key; sort_dir = dir } in
      let same : selection lower locale_compare t devices
          ≡ selection lower locale_compare s devices =
        unfold selection in refl in
      record {
        sized = h.sized;
        on_page = rw (pages_congr s t same refl) h.on_page;
        distinct = h.distinct;
      }

  toggle_sort-IsSound : (s : PageState) (key : SortKey) → IsSound s → IsSound (toggle_sort key s)
  unfolding toggle_sort
  toggle_sort-IsSound s key h = elim (Bool-cases (same_key s.sort_key key)) [
    | inl e ↦ rw e (ordered-IsSound s s.sort_key (opposite s.sort_dir) h)
    | inr e ↦ rw e (ordered-IsSound s key asc h)
  ]

  selected-IsSound :
      (s : PageState) (chosen : List Text)
      → IsSound s
      → IsDistinct chosen
      → IsSound (record s { selected = chosen })
  selected-IsSound s chosen h d =
      let t : PageState = record s { selected = chosen } in
      let same : selection lower locale_compare t devices
          ≡ selection lower locale_compare s devices =
        unfold selection in refl in
      record { sized = h.sized; on_page = rw (pages_congr s t same refl) h.on_page; distinct = d }

  toggle_select_all-IsSound :
      (s : PageState) → IsSound s → IsSound (toggle_select_all lower locale_compare devices s)
  unfolding toggle_select_all
  toggle_select_all-IsSound s h =
      elim (Bool-cases (length s.selected == length (paginated lower locale_compare s devices))) [
        | inl e ↦ rw e (selected-IsSound s [] h tt)
        | inr e ↦ rw e (selected-IsSound s _ h (to_set_from-IsDistinct [] _ tt))
      ]

  -- The dialogs and the copied command have no part in it either.
  dialogs-IsSound :
      (s : PageState) (a b c : Bool)
      → IsSound s
      → IsSound (record s { delete_confirm_open = a; enroll_dialog_open = b; copied = c })
  dialogs-IsSound s a b c h =
      let t : PageState = record s {
        delete_confirm_open = a;
        enroll_dialog_open = b;
        copied = c;
      } in
      let same : selection lower locale_compare t devices
          ≡ selection lower locale_compare s devices =
        unfold selection in refl in
      record {
        sized = h.sized;
        on_page = rw (pages_congr s t same refl) h.on_page;
        distinct = h.distinct;
      }

  open_delete_confirm-IsSound : (s : PageState) → IsSound s → IsSound (open_delete_confirm s)
  unfolding open_delete_confirm
  open_delete_confirm-IsSound s h = elim (Bool-cases (ltb 0 (length s.selected))) [
    | inl e ↦ rw e (dialogs-IsSound s true s.enroll_dialog_open s.copied h)
    | inr e ↦ rw e h
  ]

  -- A page that is there.
  turned-IsSound :
      (s : PageState) (n : ℕ)
      → IsSound s
      → (n ≡ 0) ⊎ (n < pages s)
      → IsSound (record s { page = n })
  turned-IsSound s n h p =
      let t : PageState = record s { page = n } in
      let same : selection lower locale_compare t devices
          ≡ selection lower locale_compare s devices =
        unfold selection in refl in
      record { sized = h.sized; on_page = rw (pages_congr s t same refl) p; distinct = h.distinct }

  previous-IsSound : (s : PageState) → IsSound s → IsSound (previous_page lower locale_compare s)
  unfolding previous_page
  previous-IsSound s h = elim (Bool-cases (s.page == 0)) [
    | inl e ↦ rw e h
    | inr e ↦ rw e (turned-IsSound s (s.page - 1) h (earlier h.on_page))
  ]
    where
      earlier : (s.page ≡ 0) ⊎ (s.page < pages s) → (s.page - 1 ≡ 0) ⊎ (s.page - 1 < pages s)
      earlier (inl e) = inl (omega arith)
      earlier (inr lt) = inr (omega arith)

  next-IsSound : (s : PageState) → IsSound s → IsSound (next_page lower locale_compare devices s)
  unfolding next_page
  next-IsSound s h = elim (Bool-cases (leb (pages s) (s.page + 1))) [
    | inl e ↦ rw e h
    | inr e ↦ rw e (turned-IsSound s (s.page + 1) h (inr (ground arith)))
  ]

  step-IsSound : (s : PageState) (e : Event) → IsOffered e → IsSound s → IsSound (step s e)
  unfolding step set_search choose_arch toggle_state toggle_select clear_filters choose_page_size
      copy_command copy_timeout set_enroll_dialog_open settle_delete
  step-IsSound s (search_changed text) o h = record {
    sized = h.sized;
    on_page = inl refl;
    distinct = h.distinct;
  }
  step-IsSound s (arch_chosen v) o h = record {
    sized = h.sized;
    on_page = inl refl;
    distinct = h.distinct;
  }
  step-IsSound s (state_clicked state) o h = record {
    sized = h.sized;
    on_page = inl refl;
    distinct = h.distinct;
  }
  step-IsSound s (row_checked id) o h =
      selected-IsSound s _ h (toggle-IsDistinct id s.selected h.distinct)
  step-IsSound s filters_cleared o h = record {
    sized = h.sized;
    on_page = inl refl;
    distinct = h.distinct;
  }
  step-IsSound s header_checked o h = toggle_select_all-IsSound s h
  step-IsSound s previous_clicked o h = previous-IsSound s h
  step-IsSound s next_clicked o h = next-IsSound s h
  step-IsSound s (sort_clicked key) o h = toggle_sort-IsSound s key h
  step-IsSound s (page_size_chosen n) o h = record {
    sized = offered_size n o;
    on_page = inl refl;
    distinct = h.distinct;
  }
  step-IsSound s delete_clicked o h = open_delete_confirm-IsSound s h
  step-IsSound s copy_clicked o h =
      dialogs-IsSound s s.delete_confirm_open s.enroll_dialog_open true h
  step-IsSound s copy_timed_out o h =
      dialogs-IsSound s s.delete_confirm_open s.enroll_dialog_open false h
  step-IsSound s (delete_dialog_changed b) o h = dialogs-IsSound s b s.enroll_dialog_open s.copied h
  step-IsSound s (enroll_dialog_changed b) o h =
      dialogs-IsSound s s.delete_confirm_open b s.copied h
  step-IsSound s deletion_succeeded o h = selected-IsSound s [] h tt
  step-IsSound s (deletion_failed e) o h = h

  run_from-IsSound :
      (events : List Event) (s : PageState)
      → All IsOffered events
      → IsSound s
      → IsSound (run s events)
  unfolding run
  run_from-IsSound [] s o h = h
  run_from-IsSound (e ∷ events) s (o, os) h =
      run_from-IsSound events (step s e) os (step-IsSound s e o h)

  -- As long as the loaded devices stay the same, no sequence of what the user can do on the page, with
  -- the ends of the deletions that the user confirms and the sizes of a page that the select offers,
  -- leads to a page of the table that is not there or to an empty page size, and the selection names no
  -- device twice.
  pub run-IsSound : (events : List Event) → All IsOffered events → IsSound (run initial events)
  run-IsSound events o =
      run_from-IsSound events initial o
        (record { sized = omega arith; on_page = inl refl; distinct = tt })
