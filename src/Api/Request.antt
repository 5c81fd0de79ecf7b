-- ===== src/Api/Request.antt =====
-- The arguments of a call of `apiFetch`.
use edge_guardian.Base.{none, some, List, [], Text, codes}
use edge_guardian.Http.{FetchOptions}
use edge_guardian.Json.{Scalar, stringify}

pub record Call : Type 0 where
  pub path : Text
  pub options : FetchOptions

-- `{ token }`
abbrev pub get : Text → Text → Call
get path token = record {
  path = path;
  options = record { token = some token; method = none; headers = []; body = none };
}

-- `{ method, token }`
abbrev pub send : Text → Text → Text → Call
send method path token = record {
  path = path;
  options = record { token = some token; method = some method; headers = []; body = none };
}

-- `{ method, token, body: JSON.stringify(fields) }`
abbrev pub send_json : Text → Text → List (Text × Scalar) → Text → Call
send_json method path fields token = record {
  path = path;
  options = record {
    token = some token;
    method = some method;
    headers = [];
    body = some (stringify fields);
  };
}

abbrev pub post : Text
post = codes "POST"

abbrev pub put : Text
put = codes "PUT"

abbrev pub patch : Text
patch = codes "PATCH"

abbrev pub delete : Text
delete = codes "DELETE"
