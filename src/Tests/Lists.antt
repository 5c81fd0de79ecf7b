-- ===== src/Tests/Lists.antt =====
-- ui/app/(dashboard)/audit/page.tsx and ui/app/(dashboard)/devices/[id]/logs/page.tsx at concrete
-- inputs.
use edge_guardian.Base.{
  split_from, ◌≡◌, some, none, List, [], ◌∷◌, Text, codes, filter, length, text_eq, refl, any,
  arith,
}
use edge_guardian.Api.Organizations.{AuditLogEntry}
use edge_guardian.AuditPage.{PageState, filtered, choose_resource}
use edge_guardian.AuditPage.Screen.{resource_types}
use edge_guardian.AuditPage.Types.{length-filtered-resource_types}
use edge_guardian.DevicesPage.{to_set_from, member}
use edge_guardian.Sorting.{sort, place, compare_text}
use edge_guardian.DevicesPage.Counting.{total}
use edge_guardian.AuditPage.View.{matches, filtered-filter}
use edge_guardian.LogsPage.{LogResponse, log_lines, download_content}
use edge_guardian.LogsPage.Download.{split_from-download_content}

abbrev same : Text → Text
same s = s

abbrev entry : Text → AuditLogEntry
entry action = record {
  id = 1;
  user_id = 2;
  user_email = none;
  action = action;
  resource_type = codes "device";
  resource_id = codes "pi-1";
  details = none;
  created_at = [];
}

abbrev entries : List AuditLogEntry
entries = entry (codes "CREATE") ∷ entry (codes "DELETE") ∷ []

abbrev deletions : PageState
deletions = record {
  search = codes "dev";
  action_filter = codes "DELETE";
  resource_filter = [];
  page = 0;
}

matching_entries :
    filtered same same deletions entries ≡ filter (matches same same deletions) entries
matching_entries = filtered-filter same same deletions entries

abbrev of_two_types : List AuditLogEntry
of_two_types = record (entry (codes "DELETE")) { resource_type = codes "token" } ∷ entries

length-filtered-resource_types_example :
    length (filtered same same (choose_resource (codes "all") deletions) of_two_types)
    ≡ total
        (λ t. length (filtered same same (choose_resource t deletions) of_two_types))
        (resource_types (some of_two_types))
unfolding text_eq
length-filtered-resource_types_example =
    length-filtered-resource_types same same deletions of_two_types
      ((refl, refl), ((refl, refl), ((refl, refl), tt)))

-- The types are offered in order.
offered : resource_types (some of_two_types) ≡ codes "device" ∷ codes "token" ∷ []
unfolding resource_types to_set_from member any sort place compare_text text_eq
offered = refl

abbrev response : LogResponse
response = some (
    some ((codes "1", codes "up") ∷ (codes "2", codes "ok") ∷ [])
    ∷ none
    ∷ some ((codes "3", codes "down") ∷ [])
    ∷ [])

abbrev shown : List Text
shown = codes "up" ∷ codes "ok" ∷ codes "down" ∷ []

-- The file that is offered holds the lines.
downloaded : split_from 10 [] (download_content response) ≡ shown
unfolding log_lines
downloaded = split_from-download_content response (λ e. cc) (omega arith)
