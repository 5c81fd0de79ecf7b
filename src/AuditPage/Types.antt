-- ===== src/AuditPage/Types.antt =====
-- What the items of the select of the resource types find.
use edge_guardian.Base.{
  ◌≡◌, ap, ◌∙◌, true, false, not, ◌&&◌, ◌||◌, Bool, some, List, [], map, Text, codes, truthy,
  text_eq, length, filter, All, All-imply, filter_when, filter-filter, if◌then◌else◌,
}
use edge_guardian.Api.Organizations.{AuditLogEntry}
use edge_guardian.Sorting.{compare_text}
use edge_guardian.DevicesPage.{to_set}
use edge_guardian.DevicesPage.Sets.{to_set_from-All}
use edge_guardian.DevicesPage.Counting.{total, total-to_set}
use edge_guardian.AuditPage.{PageState, choose_resource, finds, filtered}
use edge_guardian.AuditPage.Screen.{resource_types}

abbrev type_of : AuditLogEntry → Text
type_of e = e.resource_type

-- A type that an item can stand for: not empty, and not the value of All Resources.
abbrev pub IsPickable : Text → Type 0
IsPickable t = (truthy t ≡ true) × (text_eq t (codes "all") ≡ false)

module _ (lower upper : Text → Text) where
  -- The other two filters.
  passes : PageState → AuditLogEntry → Bool
  passes s e =
      (not (truthy s.search) || finds lower upper (lower s.search) e)
      && (not (truthy s.action_filter) || text_eq (upper e.action) s.action_filter)

  -- What they leave.
  abbrev acted : PageState → List AuditLogEntry → List AuditLogEntry
  acted s entries =
      let found =
        if truthy s.search then filter (finds lower upper (lower s.search)) entries else entries in
      if truthy s.action_filter
      then filter (λ e. text_eq (upper e.action) s.action_filter) found
      else found

  acted-filter :
      (s : PageState) (entries : List AuditLogEntry) → acted s entries ≡ filter (passes s) entries
  unfolding passes
  acted-filter s entries =
      let p1 = finds lower upper (lower s.search) in
      let p2 = λ (e : AuditLogEntry). text_eq (upper e.action) s.action_filter in
      let q1 = λ (e : AuditLogEntry). not (truthy s.search) || p1 e in
      let q2 = λ (e : AuditLogEntry). not (truthy s.action_filter) || p2 e in
      filter_when (truthy s.action_filter) p2 _
      ∙ ap (filter q2) (filter_when (truthy s.search) p1 entries)
      ∙ filter-filter q2 q1 entries

  filtered-all :
      (s : PageState) (entries : List AuditLogEntry)
      → filtered lower upper (choose_resource (codes "all") s) entries ≡ filter (passes s) entries
  unfolding filtered choose_resource text_eq
  filtered-all s entries = acted-filter s entries

  filtered-type :
      (s : PageState) (entries : List AuditLogEntry) (t : Text)
      → IsPickable t
      → filtered lower upper (choose_resource t s) entries
        ≡ filter (λ e. text_eq e.resource_type t) (filter (passes s) entries)
  unfolding filtered choose_resource
  filtered-type s entries t (h, away) =
      rw (away, h) (ap (filter (λ e. text_eq e.resource_type t)) (acted-filter s entries))

  -- If the type of each entry is neither empty nor the word all, then, whatever the other filters are,
  -- the numbers of entries listed under the types that the select offers add up to the number of
  -- entries listed under All Resources.
  pub length-filtered-resource_types :
      (s : PageState) (entries : List AuditLogEntry)
      → All IsPickable (map type_of entries)
      → length (filtered lower upper (choose_resource (codes "all") s) entries)
        ≡ total
            (λ t. length (filtered lower upper (choose_resource t s) entries))
            (resource_types (some entries))
  unfolding resource_types
  length-filtered-resource_types s entries named =
      ap length (filtered-all s entries)
      ∙ total-to_set type_of compare_text (passes s) entries
          (λ t. length (filtered lower upper (choose_resource t s) entries))
          (All-imply _ _ (to_set (map type_of entries))
            (λ t h. ap length (filtered-type s entries t h))
            (to_set_from-All IsPickable [] (map type_of entries) tt named))
