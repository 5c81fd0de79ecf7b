-- ===== src/DevicesPage/View.antt =====
-- What the table shows: the devices that match the filters, all of them, in the chosen order.
pub mod Wanted
use mathlib.Core.List.{Perm}
use edge_guardian.Base.{
  ◌⊎◌, ◌↔◌, inl, inr, refl, sym, true, false, none, some, [], ◌++◌, text_eq_iff, includes, arith,
  and_split, get_or, Bool-cases, filter-filter, filter_when, filter_unless, ◌≡◌, ap, ◌∙◌, Bool, not,
  ◌&&◌, ◌||◌, List, Text, truthy, text_eq, filter, subst,
}
use edge_guardian.DevicesPage.View.Wanted.{
  Contains, IsAmong, includes_iff, member_iff, or_iff, unset_iff, is_empty_iff,
}
use edge_guardian.Api.Devices.{Device}
use edge_guardian.Sorting.{Comparison, IsConsistent, flip}
use edge_guardian.Sorting.Laws.{sort-perm, sort-IsSorted, IsSorted}
use edge_guardian.DevicesPage.{
  PageState, SortKey, SortDir, by_hostname, by_state, by_last_heartbeat, asc, desc, member,
  is_empty, compare_by, compare_devices, finds, selection, filtered,
}

abbrev pub heartbeat_of : Device → Text
heartbeat_of d = get_or d.last_heartbeat []

module _ (lower : Text → Text) (locale_compare : Comparison Text) where
  -- What the filters ask of a device.
  pub record IsListed (s : PageState) (d : Device) : Type 0 where
    pub found :
        (s.search ≡ [])
        ⊎ (Contains (lower d.hostname) (lower s.search)
            ⊎ Contains (lower d.device_id) (lower s.search))
    pub in_state : (s.state_filter ≡ []) ⊎ IsAmong d.state s.state_filter
    pub of_arch : (s.arch_filter ≡ []) ⊎ (d.architecture ≡ s.arch_filter)

  -- The order that the field and the direction say.
  unfoldable pub in_order : SortKey → SortDir → Comparison Device
  in_order by_hostname asc a b = locale_compare a.hostname b.hostname
  in_order by_hostname desc a b = locale_compare b.hostname a.hostname
  in_order by_state asc a b = locale_compare a.state b.state
  in_order by_state desc a b = locale_compare b.state a.state
  in_order by_last_heartbeat asc a b = locale_compare (heartbeat_of a) (heartbeat_of b)
  in_order by_last_heartbeat desc a b = locale_compare (heartbeat_of b) (heartbeat_of a)

  -- A device matches each filter that is set.
  pub matches : PageState → Device → Bool
  matches s d =
      ((not (truthy s.search) || finds lower locale_compare (lower s.search) d)
        && (is_empty s.state_filter || member d.state s.state_filter))
      && (not (truthy s.arch_filter) || text_eq d.architecture s.arch_filter)

  matches_iff : (s : PageState) (d : Device) → (matches s d ≡ true) ↔ IsListed s d
  unfolding matches
  matches_iff s d =
      let needle = lower s.search in
      let found = or_iff (not (truthy s.search)) _ (unset_iff s.search) (
        or_iff (includes (lower d.hostname) needle) (includes (lower d.device_id) needle)
          (includes_iff (lower d.hostname) needle) (includes_iff (lower d.device_id) needle)) in
      let in_state =
        or_iff (is_empty s.state_filter) (member d.state s.state_filter)
          (is_empty_iff s.state_filter) (member_iff d.state s.state_filter) in
      let of_arch =
        or_iff (not (truthy s.arch_filter)) (text_eq d.architecture s.arch_filter)
          (unset_iff s.arch_filter) (text_eq_iff d.architecture s.arch_filter) in
      (
        λ h.
            let (both, third) = and_split _ _ h in
            let (one, two) = and_split _ _ both in
            record { found = found.0 one; in_state = in_state.0 two; of_arch = of_arch.0 third },
        λ l. rw (found.1 l.found, in_state.1 l.in_state, of_arch.1 l.of_arch) refl,
      )

  selection-filter :
      (s : PageState) (devices : List Device)
      → selection lower locale_compare s devices ≡ filter (matches s) devices
  unfolding selection matches
  selection-filter s devices =
      let p1 = finds lower locale_compare (lower s.search) in
      let p2 = λ (d : Device). member d.state s.state_filter in
      let p3 = λ (d : Device). text_eq d.architecture s.arch_filter in
      let q1 = λ (d : Device). not (truthy s.search) || p1 d in
      let q2 = λ (d : Device). is_empty s.state_filter || p2 d in
      let q3 = λ (d : Device). not (truthy s.arch_filter) || p3 d in
      filter_when (truthy s.arch_filter) p3 _
      ∙ ap (filter q3) (
          filter_unless (is_empty s.state_filter) p2 _
          ∙ ap (filter q2) (filter_when (truthy s.search) p1 devices)
          ∙ filter-filter q2 q1 devices)
      ∙ filter-filter q3 (λ d. q1 d && q2 d) devices

  module _ (consistent : IsConsistent locale_compare) where
    compare_by-IsConsistent : (key : SortKey) → IsConsistent (compare_by lower locale_compare key)
    unfolding compare_by
    compare_by-IsConsistent by_hostname = record {
      flips = λ a b. consistent.flips _ _;
      transitive = λ a b c. consistent.transitive _ _ _;
    }
    compare_by-IsConsistent by_state = record {
      flips = λ a b. consistent.flips _ _;
      transitive = λ a b c. consistent.transitive _ _ _;
    }
    compare_by-IsConsistent by_last_heartbeat = record {
      flips = λ a b. consistent.flips _ _;
      transitive = λ a b c. consistent.transitive _ _ _;
    }

    compare_devices-IsConsistent :
        (key : SortKey) (dir : SortDir)
        → IsConsistent (compare_devices lower locale_compare key dir)
    unfolding compare_devices
    compare_devices-IsConsistent key asc = compare_by-IsConsistent key
    compare_devices-IsConsistent key desc =
        let by = compare_by-IsConsistent key in
        record {
          flips = λ a b. ap flip (by.flips a b);
          transitive = λ a b c h k.
              rw (by.flips a c) at
                (by.transitive c b a (rw (by.flips b c) k) (rw (by.flips a b) h));
        }

    -- The comparison of the page is that of the chosen field, the other way round for `desc`.
    compare_devices-in_order :
        (key : SortKey) (dir : SortDir)
        → compare_devices lower locale_compare key dir ≡ in_order key dir
    unfolding compare_devices compare_by in_order
    compare_devices-in_order by_hostname asc = refl
    compare_devices-in_order by_state asc = refl
    compare_devices-in_order by_last_heartbeat asc = refl
    compare_devices-in_order by_hostname desc =
        λ i a b. sym (consistent.flips a.hostname b.hostname) i
    compare_devices-in_order by_state desc = λ i a b. sym (consistent.flips a.state b.state) i
    compare_devices-in_order by_last_heartbeat desc =
        λ i a b. sym (consistent.flips (heartbeat_of a) (heartbeat_of b)) i

    -- The table holds exactly the devices that are listed, each as often as it was loaded, where a
    -- device is listed if its name or its identifier contains the text that is searched for, without
    -- regard to case, if there is one, its state is among the chosen ones, if there are any, and its
    -- architecture is the chosen one, if there is one; and no device stands before one that the
    -- chosen field and direction put first, where the collation is consistent.
    pub filtered-perm-IsSorted :
        (s : PageState) (devices : List Device)
        → ((d : Device) → (matches s d ≡ true) ↔ IsListed s d)
          × Perm (filtered lower locale_compare s devices) (filter (matches s) devices)
          × IsSorted (in_order s.sort_key s.sort_dir) (filtered lower locale_compare s devices)
    unfolding filtered
    filtered-perm-IsSorted s devices = (
      matches_iff s,
      subst (λ (xs : List Device). Perm (filtered lower locale_compare s devices) xs)
          (selection-filter s devices)
          (sort-perm (compare_devices lower locale_compare s.sort_key s.sort_dir)
            (selection lower locale_compare s devices)),
      subst (λ cmp. IsSorted cmp (filtered lower locale_compare s devices))
          (compare_devices-in_order s.sort_key s.sort_dir)
          (sort-IsSorted (compare_devices lower locale_compare s.sort_key s.sort_dir)
            (compare_devices-IsConsistent s.sort_key s.sort_dir)
            (selection lower locale_compare s devices)),
    )
