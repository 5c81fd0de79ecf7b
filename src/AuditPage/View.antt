-- ===== src/AuditPage/View.antt =====
-- What the audit page lists.
use edge_guardian.Base.{
  ◌≡◌, ◌∙◌, ap, Bool, not, ◌&&◌, ◌||◌, List, Text, truthy, text_eq, filter, filter-filter,
  filter_when,
}
use edge_guardian.Api.Organizations.{AuditLogEntry}
use edge_guardian.AuditPage.{PageState, finds, filtered}

module _ (lower upper : Text → Text) where
  -- An entry matches each filter that is set.
  pub matches : PageState → AuditLogEntry → Bool
  matches s e =
      ((not (truthy s.search) || finds lower upper (lower s.search) e)
        && (not (truthy s.action_filter) || text_eq (upper e.action) s.action_filter))
      && (not (truthy s.resource_filter) || text_eq e.resource_type s.resource_filter)

  -- The filters, applied one after the other, leave the entries that match all that are set, in the
  -- order in which the controller sent them.
  pub filtered-filter :
      (s : PageState) (entries : List AuditLogEntry)
      → filtered lower upper s entries ≡ filter (matches s) entries
  unfolding filtered matches
  filtered-filter s entries =
      let p1 = finds lower upper (lower s.search) in
      let p2 = λ (e : AuditLogEntry). text_eq (upper e.action) s.action_filter in
      let p3 = λ (e : AuditLogEntry). text_eq e.resource_type s.resource_filter in
      let q1 = λ (e : AuditLogEntry). not (truthy s.search) || p1 e in
      let q2 = λ (e : AuditLogEntry). not (truthy s.action_filter) || p2 e in
      let q3 = λ (e : AuditLogEntry). not (truthy s.resource_filter) || p3 e in
      filter_when (truthy s.resource_filter) p3 _
      ∙ ap (filter q3) (
          filter_when (truthy s.action_filter) p2 _
          ∙ ap (filter q2) (filter_when (truthy s.search) p1 entries)
          ∙ filter-filter q2 q1 entries)
      ∙ filter-filter q3 (λ e. q1 e && q2 e) entries
