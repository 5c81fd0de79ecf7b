-- ===== src/AuditPage.antt =====
-- ui/app/(dashboard)/audit/page.tsx: the audit log with its filters and pages. `toLowerCase` and
-- `toUpperCase` are parameters.
pub mod View
pub mod Screen
pub mod Types
use edge_guardian.Base.{
  ℕ, ◌+◌, ◌-◌, Bool, false, ◌||◌, Option, none, some, List, [], Text, codes, truthy, text_eq,
  includes, leb, ◌==◌, if◌then◌else◌, filter, length,
}
use edge_guardian.Api.Organizations.{AuditLogEntry}
use edge_guardian.Paging.{total_pages, page_of}

pub record PageState : Type 0 where
  pub search : Text
  pub action_filter : Text
  pub resource_filter : Text
  pub page : ℕ

abbrev pub initial : PageState
initial = record { search = []; action_filter = []; resource_filter = []; page = 0 }

abbrev pub page_size : ℕ
page_size = 20

unfoldable pub set_search : Text → PageState → PageState
set_search text s = record s { search = text; page = 0 }

-- `v === "all" ? "" : v`
abbrev pub all_or : Text → Text
all_or v = if text_eq v (codes "all") then [] else v

unfoldable pub choose_action : Text → PageState → PageState
choose_action v s = record s { action_filter = all_or v; page = 0 }

unfoldable pub choose_resource : Text → PageState → PageState
choose_resource v s = record s { resource_filter = all_or v; page = 0 }

module _ (lower upper : Text → Text) where
  -- `e.userEmail?.toLowerCase().includes(lower) ?? false`
  abbrev pub email_has : Text → Option Text → Bool
  email_has needle none = false
  email_has needle (some email) = includes (lower email) needle

  abbrev pub finds : Text → AuditLogEntry → Bool
  finds needle e =
      includes (lower e.action) needle
      || includes (lower e.resource_type) needle
      || email_has needle e.user_email

  unfoldable pub filtered : PageState → List AuditLogEntry → List AuditLogEntry
  filtered s entries =
      let found = if truthy s.search then filter (finds (lower s.search)) entries else entries in
      let acted =
        if truthy s.action_filter
        then filter (λ e. text_eq (upper e.action) s.action_filter) found
        else found in
      if truthy s.resource_filter
      then filter (λ e. text_eq e.resource_type s.resource_filter) acted
      else acted

  unfoldable pub paginated : PageState → List AuditLogEntry → List AuditLogEntry
  unfolding filtered
  paginated s entries = page_of s.page page_size (filtered s entries)

  -- The buttons below the list; a button that is disabled does nothing.
  unfoldable pub previous_page : PageState → PageState
  previous_page s = if s.page == 0 then s else record s { page = s.page - 1 }

  unfoldable pub next_page : List AuditLogEntry → PageState → PageState
  unfolding filtered
  next_page entries s =
      if leb (total_pages (length (filtered s entries)) page_size) (s.page + 1)
      then s
      else record s { page = s.page + 1 }
