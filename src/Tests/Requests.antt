-- ===== src/Tests/Requests.antt =====
-- ui/lib/api-client.ts and ui/lib/api at concrete inputs.
use edge_guardian.Base.{
  ℕ, ◌≡◌, ◌↔◌, refl, Option, none, some, [], ◌∷◌, Text, codes, arith, lookup, text_eq, insert,
}
use edge_guardian.Http.{
  no_options, HttpRequest, Response, Fetched, response, ok, err, api_error, request, api_fetch,
}
use edge_guardian.Http.Laws.{api_fetch-ok_iff, api_fetch-IsRefusal_iff, IsSuccess, IsRefusal}
use edge_guardian.Endpoints.{devices_by_id, url}
use edge_guardian.Endpoints.Routing.{route, split_path, canonical, route-url}
use edge_guardian.Api.Operations.Kept.{IsKeptId}
use edge_guardian.Api.Operations.{Operation, call, target, update_device_labels}
use edge_guardian.Decimal.{to_string}
use edge_guardian.Query.{utf8}
use edge_guardian.Api.Devices.{log_query}
use edge_guardian.Api.Operations.Reading.{read_operation}
use edge_guardian.Api.Operations.Reading.Laws.{read_operation-call, settled}
use edge_guardian.Api.Operations.Laws.{call-authorized}

-- A JSON value is its text, and the controller answers every request with the same response.
abbrev parse : Text → Option Text
parse s = some s

abbrev answers : ℕ → Text → HttpRequest → Fetched
answers status s r =
    response (record { status = status; status_text = codes "status"; text = some s })

api_fetch-ok_iff_example :
    (api_fetch (codes "https://c") (answers 200 (codes "[]")) parse (codes "/me") no_options
      ≡ ok (some (codes "[]")))
    ↔ ((r : Response) × (answers 200
            (codes "[]")
            (request (codes "https://c") (answers 200 (codes "[]")) (codes "/me") no_options)
          ≡ response r)
        × IsSuccess parse (some (codes "[]")) r)
api_fetch-ok_iff_example =
    api_fetch-ok_iff parse (codes "https://c") (answers 200 (codes "[]")) (codes "/me") no_options
      (some (codes "[]"))

api_fetch-IsRefusal_iff_example :
    (api_fetch (codes "https://c") (answers 404 []) parse (codes "/me") no_options
      ≡ err (api_error 404 (codes "status")))
    ↔ ((r : Response) × (answers 404 []
            (request (codes "https://c") (answers 404 []) (codes "/me") no_options)
          ≡ response r)
        × IsRefusal parse 404 (codes "status") r)
api_fetch-IsRefusal_iff_example =
    api_fetch-IsRefusal_iff parse (codes "https://c") (answers 404 []) (codes "/me") no_options 404
      (codes "status")

abbrev labels : Operation
labels = update_device_labels (codes "pi-1") ((codes "room", codes "lab") ∷ [])

-- The path of a device leads back to it.
routed :
    route (split_path (url (devices_by_id (codes "pi-1"))))
    ≡ some (canonical (devices_by_id (codes "pi-1")))
routed = route-url (devices_by_id (codes "pi-1")) (omega arith, λ e. cc)

call-authorized_example :
    lookup
      (codes "Authorization")
      (request
        (codes "https://c")
        (answers 200 [])
        (call (codes "t") labels).path
        (call (codes "t") labels).options).headers
    ≡ some (codes "Bearer t")
call-authorized_example =
    call-authorized (codes "https://c") (answers 200 []) (codes "t") labels refl

-- A search of the logs for a text that a query has to escape, and a name with a quote.
abbrev searched : Operation
searched = Operation.get_device_logs (codes "pi-1") (
    some record {
      start = none;
      end = none;
      limit = some 100;
      level = some [];
      search = some (codes "a&b=%");
    })

kept_device : IsKeptId (codes "pi-1")
kept_device = record {
  named = cc;
  kept = (refl, (refl, (refl, (refl, tt))));
  not_here = cc;
  not_above = cc;
}

read_operation-call_example : read_operation (call (codes "t") searched) ≡ some (settled searched)
unfolding target log_query text_eq insert to_string
read_operation-call_example = read_operation-call (codes "t") searched (omega arith) kept_device

settled_search :
    settled searched
    ≡ Operation.get_device_logs (codes "pi-1") (
        some record {
          start = none;
          end = none;
          limit = some 100;
          level = none;
          search = some (codes "a&b=%");
        })
unfolding utf8
settled_search = refl

abbrev key : Operation
key = Operation.create_api_key (codes "say \"hi\"\n")

read_key : read_operation (call (codes "t") key) ≡ some key
unfolding target
read_key = read_operation-call (codes "t") key tt tt
