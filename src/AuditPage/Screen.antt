-- ===== src/AuditPage/Screen.antt =====
-- ui/app/(dashboard)/audit/page.tsx: the query, the filters that are offered, and the entries as they
-- are shown. The distance of a time to now and its exact text are parameters, from date-fns.
use edge_guardian.Base.{
  ℕ, ◌+◌, ◌*◌, min, Bool, not, ◌&&◌, Option, none, some, List, [], ◌∷◌, ◌++◌, map, Text, codes,
  truthy, ltb, ◌==◌, if◌then◌else◌, get_or, length, lookup, take,
}
use edge_guardian.Decimal.{to_string}
use edge_guardian.Api.Request.{Call}
use edge_guardian.Api.Organizations.{AuditLogEntry, list_audit_log}
use edge_guardian.Organization.{unset}
use edge_guardian.Sorting.{sort, compare_text}
use edge_guardian.Table.{TableView, skeleton, nothing, table_rows}
use edge_guardian.DevicesPage.{to_set}
use edge_guardian.AuditPage.{PageState, page_size, filtered, paginated}

unfoldable pub entries_query : Text → Option ℕ → Option Call
unfolding list_audit_log
entries_query token org_id =
    if truthy token && not (unset org_id) then some (list_audit_log token none) else none

-- The types of the select, each once and in order.
unfoldable pub resource_types : Option (List AuditLogEntry) → List Text
unfolding sort compare_text
resource_types entries = sort compare_text (to_set (map (λ e. e.resource_type) (get_or entries [])))

-- The items of the second select, each with its value and its text.
unfoldable pub resource_items : Option (List AuditLogEntry) → List (Text × Text)
unfolding resource_types
resource_items entries =
    (codes "all", codes "All Resources") ∷ map (λ rt. (rt, rt)) (resource_types entries)

abbrev pub action_options : List (Text × Text)
action_options =
    (codes "all", codes "All Actions")
    ∷ (codes "CREATE", codes "CREATE")
    ∷ (codes "UPDATE", codes "UPDATE")
    ∷ (codes "DELETE", codes "DELETE")
    ∷ []

-- The colour family of an action.
abbrev pub action_colors : List (Text × Text)
action_colors =
    (codes "CREATE", codes "emerald")
    ∷ (codes "UPDATE", codes "blue")
    ∷ (codes "DELETE", codes "red")
    ∷ []

pub record EntryCard : Type 0 where
  pub avatar : Text
  pub action : Text
  pub color : Text
  pub resource_type : Text
  pub resource_id : Option Text
  pub author : Text
  pub exact_time : Text
  pub time : Text

module _ (lower upper : Text → Text) (distance exact : Text → Text) where
  -- `entry.userEmail ? entry.userEmail.charAt(0).toUpperCase() : "S"`
  unfoldable pub author_initial : Option Text → Text
  unfolding take
  author_initial none = codes "S"
  author_initial (some email) = if truthy email then upper (take 1 email) else codes "S"

  unfoldable pub entry_card : AuditLogEntry → EntryCard
  unfolding author_initial lookup
  entry_card e = record {
    avatar = author_initial e.user_email;
    action = e.action;
    color = get_or (lookup (upper e.action) action_colors) [];
    resource_type = e.resource_type;
    resource_id = if truthy e.resource_id then some e.resource_id else none;
    author = get_or e.user_email (codes "system");
    exact_time = exact e.created_at;
    time = distance e.created_at;
  }

  unfoldable pub timeline : Bool → List AuditLogEntry → PageState → TableView EntryCard
  unfolding paginated entry_card
  timeline is_loading entries s =
      if is_loading
      then skeleton 5 1
      else if length (paginated lower upper s entries) == 0
      then nothing (codes "No audit entries")
          (codes "Actions performed in the system will appear here.")
      else table_rows (map entry_card (paginated lower upper s entries))

  -- The count beside the filters, once the entries have come, and the text below the list.
  unfoldable pub event_count : Option (List AuditLogEntry) → PageState → Option Text
  unfolding filtered to_string
  event_count none s = none
  event_count (some entries) s =
      some (to_string (length (filtered lower upper s entries)) ++ codes " events")

  unfoldable pub showing_entries : List AuditLogEntry → PageState → Option Text
  unfolding filtered to_string
  showing_entries entries s =
      let n = length (filtered lower upper s entries) in
      if ltb page_size n
      then some (
          codes "Showing "
          ++ to_string (s.page * page_size + 1)
          ++ codes "-"
          ++ to_string (min ((s.page + 1) * page_size) n)
          ++ codes " of "
          ++ to_string n)
      else none
