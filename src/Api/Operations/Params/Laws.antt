-- ===== src/Api/Operations/Params/Laws.antt =====
-- The parameters that are put into a query are the ones that a server reads.
use edge_guardian.Base.{
  ℕ, ◌≡◌, refl, ap, ◌∙◌, Option, none, some, [], map, Text, codes, text_eq, lookup,
}
use edge_guardian.Query.{utf8}
use edge_guardian.Query.RoundTrip.{utf8_pair}
use edge_guardian.Api.Devices.{LogParams, log_query}
use edge_guardian.Api.Organizations.{AuditParams, audit_query}
use edge_guardian.Api.Operations.Params.{
  as_number, read_log_params, read_audit_params, sent_text, sent_number, sent_log_params,
  sent_audit_params,
}
use edge_guardian.Api.Operations.Params.Lookup.{
  HasNames, set_text-HasNames, set_number-HasNames, set_defined-HasNames, nonempty, printed_nonzero,
  printed, as_bytes, lookup-utf8, as_bytes-nonempty, as_number-printed, as_number-printed_nonzero,
  lookups,
}

log_query-HasNames : (p : LogParams) → HasNames (log_query (some p))
unfolding log_query utf8
log_query-HasNames p = set_text-HasNames (codes "search") p.search _ refl (
    set_text-HasNames (codes "level") p.level _ refl (
      set_number-HasNames (codes "limit") p.limit _ refl (
        set_text-HasNames (codes "end") p.end _ refl
          (set_text-HasNames (codes "start") p.start [] refl (unfold HasNames in tt)))))

module _ (p : LogParams) where
  log_start : lookup (codes "start") (log_query (some p)) ≡ nonempty p.start
  unfolding log_query text_eq lookup
  log_start = simp lookups

  log_end : lookup (codes "end") (log_query (some p)) ≡ nonempty p.end
  unfolding log_query text_eq lookup
  log_end = simp lookups

  log_limit : lookup (codes "limit") (log_query (some p)) ≡ printed_nonzero p.limit
  unfolding log_query text_eq lookup
  log_limit = simp lookups

  log_level : lookup (codes "level") (log_query (some p)) ≡ nonempty p.level
  unfolding log_query text_eq lookup
  log_level = simp lookups

  log_search : lookup (codes "search") (log_query (some p)) ≡ nonempty p.search
  unfolding log_query text_eq lookup
  log_search = simp lookups

  log_text :
      (j : Text) (v : Option Text)
      → lookup j (log_query (some p)) ≡ nonempty v
      → lookup j (map utf8_pair (log_query (some p))) ≡ sent_text v
  log_text j v e =
      lookup-utf8 j (log_query (some p)) (log_query-HasNames p)
      ∙ ap as_bytes e
      ∙ as_bytes-nonempty v

  log_number :
      as_number (lookup (codes "limit") (map utf8_pair (log_query (some p)))) ≡ sent_number p.limit
  log_number =
      ap as_number (
        lookup-utf8 (codes "limit") (log_query (some p)) (log_query-HasNames p)
        ∙ ap as_bytes log_limit)
      ∙ as_number-printed_nonzero p.limit

  read_log_params-some :
      read_log_params (map utf8_pair (log_query (some p))) ≡ sent_log_params (some p)
  unfolding read_log_params
  read_log_params-some = cc (
    log_text (codes "start") p.start log_start,
    log_text (codes "end") p.end log_end,
    log_number,
    log_text (codes "level") p.level log_level,
    log_text (codes "search") p.search log_search,
  )

-- The parameters of the logs that the query carries.
pub read_log_params-map :
    (p : Option LogParams) → read_log_params (map utf8_pair (log_query p)) ≡ sent_log_params p
read_log_params-map none = unfold read_log_params log_query lookup in refl
read_log_params-map (some p) = read_log_params-some p

audit_query-HasNames : (p : AuditParams) → HasNames (audit_query (some p))
unfolding audit_query utf8
audit_query-HasNames p = set_text-HasNames (codes "resourceType") p.resource_type _ refl (
    set_text-HasNames (codes "action") p.action _ refl (
      set_defined-HasNames (codes "size") p.size _ refl
        (set_defined-HasNames (codes "page") p.page [] refl (unfold HasNames in tt))))

module _ (p : AuditParams) where
  audit_page : lookup (codes "page") (audit_query (some p)) ≡ printed p.page
  unfolding audit_query text_eq lookup
  audit_page = simp lookups

  audit_size : lookup (codes "size") (audit_query (some p)) ≡ printed p.size
  unfolding audit_query text_eq lookup
  audit_size = simp lookups

  audit_action : lookup (codes "action") (audit_query (some p)) ≡ nonempty p.action
  unfolding audit_query text_eq lookup
  audit_action = simp lookups

  audit_resource : lookup (codes "resourceType") (audit_query (some p)) ≡ nonempty p.resource_type
  unfolding audit_query text_eq lookup
  audit_resource = simp lookups

  audit_text :
      (j : Text) (v : Option Text)
      → lookup j (audit_query (some p)) ≡ nonempty v
      → lookup j (map utf8_pair (audit_query (some p))) ≡ sent_text v
  audit_text j v e =
      lookup-utf8 j (audit_query (some p)) (audit_query-HasNames p)
      ∙ ap as_bytes e
      ∙ as_bytes-nonempty v

  audit_number :
      (j : Text) (v : Option ℕ)
      → lookup j (audit_query (some p)) ≡ printed v
      → as_number (lookup j (map utf8_pair (audit_query (some p)))) ≡ v
  audit_number j v e =
      ap as_number (lookup-utf8 j (audit_query (some p)) (audit_query-HasNames p) ∙ ap as_bytes e)
      ∙ as_number-printed v

  read_audit_params-some :
      read_audit_params (map utf8_pair (audit_query (some p))) ≡ sent_audit_params (some p)
  unfolding read_audit_params
  read_audit_params-some = cc (
    audit_number (codes "page") p.page audit_page,
    audit_number (codes "size") p.size audit_size,
    audit_text (codes "action") p.action audit_action,
    audit_text (codes "resourceType") p.resource_type audit_resource,
  )

-- The parameters of the audit log that the query carries.
pub read_audit_params-map :
    (p : Option AuditParams)
    → read_audit_params (map utf8_pair (audit_query p)) ≡ sent_audit_params p
read_audit_params-map none = unfold read_audit_params audit_query lookup in refl
read_audit_params-map (some p) = read_audit_params-some p
