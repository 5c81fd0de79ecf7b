-- ===== src/DevicesPage.antt =====
-- ui/app/(dashboard)/devices/page.tsx: the list of devices with its filters, its order, its pages,
-- its selection and the deletion of what is selected. `toLowerCase` and `localeCompare` are
-- parameters.
pub mod Sets
pub mod Counting
pub mod View
pub mod Steps
pub mod Deletion
pub mod Screen
use edge_guardian.Base.{
  ℕ, ◌+◌, ◌-◌, Bool, true, false, not, ◌&&◌, ◌||◌, List, [], ◌∷◌, ◌++◌, map, Text, codes, truthy,
  text_eq, includes, ◌==◌, leb, if◌then◌else◌, get_or, filter, any, length,
}
use edge_guardian.Api.Devices.{Device}
use edge_guardian.Paging.{total_pages, page_of}
use edge_guardian.Sorting.{Comparison, flip, sort}

pub data SortKey : Type 0 where
  by_hostname by_state by_last_heartbeat : SortKey

pub data SortDir : Type 0 where
  asc desc : SortDir

-- The component's `useState` values. `selected` is a `Set` in the order of insertion.
pub record PageState : Type 0 where
  pub search : Text
  pub state_filter : List Text
  pub arch_filter : Text
  pub sort_key : SortKey
  pub sort_dir : SortDir
  pub page : ℕ
  pub page_size : ℕ
  pub selected : List Text
  pub delete_confirm_open : Bool
  pub enroll_dialog_open : Bool
  pub copied : Bool

abbrev pub initial : PageState
initial = record {
  search = [];
  state_filter = [];
  arch_filter = [];
  sort_key = by_hostname;
  sort_dir = asc;
  page = 0;
  page_size = 10;
  selected = [];
  delete_confirm_open = false;
  enroll_dialog_open = false;
  copied = false;
}

-- `list.includes(x)`, `list.filter((s) => s !== x)`
unfoldable pub member : Text → List Text → Bool
unfolding any
member x list = any (λ s. text_eq s x) list

unfoldable pub without : Text → List Text → List Text
unfolding filter
without x list = filter (λ s. not (text_eq s x)) list

-- `prev.includes(x) ? prev.filter(…) : [...prev, x]`, and the same on a `Set`
unfoldable pub toggle : Text → List Text → List Text
unfolding member without
toggle x list = if member x list then without x list else list ++ x ∷ []

unfoldable pub toggle_state : Text → PageState → PageState
unfolding toggle
toggle_state state s = record s { state_filter = toggle state s.state_filter; page = 0 }

abbrev pub same_key : SortKey → SortKey → Bool
same_key by_hostname by_hostname = true
same_key by_state by_state = true
same_key by_last_heartbeat by_last_heartbeat = true
same_key _ _ = false

abbrev pub opposite : SortDir → SortDir
opposite asc = desc
opposite desc = asc

unfoldable pub toggle_sort : SortKey → PageState → PageState
toggle_sort key s =
    if same_key s.sort_key key
    then record s { sort_dir = opposite s.sort_dir }
    else record s { sort_key = key; sort_dir = asc }

unfoldable pub clear_filters : PageState → PageState
clear_filters s = record s { search = []; state_filter = []; arch_filter = []; page = 0 }

-- `onChange` of the search field, and `onValueChange` of the two selects
unfoldable pub set_search : Text → PageState → PageState
set_search text s = record s { search = text; page = 0 }

unfoldable pub choose_arch : Text → PageState → PageState
choose_arch v s = record s { arch_filter = if text_eq v (codes "all") then [] else v; page = 0 }

unfoldable pub choose_page_size : ℕ → PageState → PageState
choose_page_size n s = record s { page_size = n; page = 0 }

unfoldable pub toggle_select : Text → PageState → PageState
unfolding toggle
toggle_select id s = record s { selected = toggle id s.selected }

-- `new Set(ids)`: the first of equal entries stays.
unfoldable pub to_set_from : List Text → List Text → List Text
unfolding member
to_set_from seen [] = seen
to_set_from seen (x ∷ xs) = to_set_from (if member x seen then seen else seen ++ x ∷ []) xs

abbrev pub to_set : List Text → List Text
to_set = to_set_from []

abbrev pub is_empty : List Text → Bool
is_empty [] = true
is_empty (x ∷ xs) = false

-- `search || stateFilter.length > 0 || archFilter`
unfoldable pub has_filters : PageState → Bool
has_filters s = truthy s.search || not (is_empty s.state_filter) || truthy s.arch_filter

abbrev pub ids : List Device → List Text
ids = map (λ d. d.device_id)

-- `toLowerCase` and `localeCompare`
module _ (lower : Text → Text) (locale_compare : Comparison Text) where
  unfoldable pub compare_by : SortKey → Comparison Device
  compare_by by_hostname a b = locale_compare a.hostname b.hostname
  compare_by by_state a b = locale_compare a.state b.state
  compare_by by_last_heartbeat a b =
      locale_compare (get_or a.last_heartbeat []) (get_or b.last_heartbeat [])

  -- The comparison of the `sort` in `filtered`.
  unfoldable pub compare_devices : SortKey → SortDir → Comparison Device
  unfolding compare_by
  compare_devices key asc a b = compare_by key a b
  compare_devices key desc a b = flip (compare_by key a b)

  abbrev pub finds : Text → Device → Bool
  finds needle d = includes (lower d.hostname) needle || includes (lower d.device_id) needle

  -- The three filters of `filtered`, each applied if it is set.
  unfoldable pub selection : PageState → List Device → List Device
  selection s devices =
      let found = if truthy s.search then filter (finds (lower s.search)) devices else devices in
      let in_state =
        if is_empty s.state_filter
        then found
        else filter (λ d. member d.state s.state_filter) found in
      if truthy s.arch_filter
      then filter (λ d. text_eq d.architecture s.arch_filter) in_state
      else in_state

  unfoldable pub filtered : PageState → List Device → List Device
  unfolding selection
  filtered s devices = sort (compare_devices s.sort_key s.sort_dir) (selection s devices)

  unfoldable pub paginated : PageState → List Device → List Device
  paginated s devices = page_of s.page s.page_size (filtered s devices)

  unfoldable pub toggle_select_all : List Device → PageState → PageState
  toggle_select_all devices s =
      if length s.selected == length (paginated s devices)
      then record s { selected = [] }
      else record s { selected = to_set (ids (paginated s devices)) }

  -- `checked` of the header's box
  unfoldable pub all_checked : List Device → PageState → Bool
  all_checked devices s =
      not (length (paginated s devices) == 0) && length s.selected == length (paginated s devices)

  -- The buttons below the table; a button that is disabled does nothing.
  unfoldable pub previous_page : PageState → PageState
  previous_page s = if s.page == 0 then s else record s { page = s.page - 1 }

  unfoldable pub next_page : List Device → PageState → PageState
  next_page devices s =
      if leb (total_pages (length (filtered s devices)) s.page_size) (s.page + 1)
      then s
      else record s { page = s.page + 1 }
