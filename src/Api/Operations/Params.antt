-- ===== src/Api/Operations/Params.antt =====
-- How a server reads the query of a call: the parameters of the logs, the telemetry and the audit log.
pub mod Lookup
pub mod Laws
use edge_guardian.Base.{
  ℕ, Option, none, some, List, [], ◌∷◌, Text, codes, truthy, lookup, if◌then◌else◌, ◌==◌,
}
use edge_guardian.Decimal.{parse_int}
use edge_guardian.Query.{utf8}
use edge_guardian.Api.Devices.{LogParams}
use edge_guardian.Api.Organizations.{AuditParams}

-- What follows the first question mark.
unfoldable pub after_query : Text → Text
after_query [] = []
after_query (c ∷ s) = let rest = after_query s in if c == b'?' then s else rest

abbrev pub Pairs : Type 0
Pairs = List (Text × Text)

abbrev pub as_number : Option Text → Option ℕ
as_number none = none
as_number (some s) = parse_int s

unfoldable pub read_log_params : Pairs → LogParams
unfolding lookup
read_log_params q = record {
  start = lookup (codes "start") q;
  end = lookup (codes "end") q;
  limit = as_number (lookup (codes "limit") q);
  level = lookup (codes "level") q;
  search = lookup (codes "search") q;
}

unfoldable pub read_audit_params : Pairs → AuditParams
unfolding lookup
read_audit_params q = record {
  page = as_number (lookup (codes "page") q);
  size = as_number (lookup (codes "size") q);
  action = lookup (codes "action") q;
  resource_type = lookup (codes "resourceType") q;
}

-- A text that is sent if it is not empty, in UTF-8.
abbrev pub sent_text : Option Text → Option Text
sent_text none = none
sent_text (some s) = if truthy s then some (utf8 s) else none

-- A number that is sent if it is not zero.
abbrev pub sent_number : Option ℕ → Option ℕ
sent_number none = none
sent_number (some n) = if n == 0 then none else some n

abbrev pub no_log_params : LogParams
no_log_params = record { start = none; end = none; limit = none; level = none; search = none }

abbrev pub sent_log_params : Option LogParams → LogParams
sent_log_params none = no_log_params
sent_log_params (some p) = record {
  start = sent_text p.start;
  end = sent_text p.end;
  limit = sent_number p.limit;
  level = sent_text p.level;
  search = sent_text p.search;
}

abbrev pub sent_audit_params : Option AuditParams → AuditParams
sent_audit_params none = record { page = none; size = none; action = none; resource_type = none }
sent_audit_params (some p) = record {
  page = p.page;
  size = p.size;
  action = sent_text p.action;
  resource_type = sent_text p.resource_type;
}
