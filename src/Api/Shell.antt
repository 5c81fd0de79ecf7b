-- ===== src/Api/Shell.antt =====
-- ui/lib/api/shell.ts.
use edge_guardian.Base.{
  ℕ, Option, [], ◌∷◌, ◌++◌, Text, codes, or_else, starts_with, drop, if◌then◌else◌, get_or,
}
use edge_guardian.Query.{encode_uri_component}
use edge_guardian.Endpoints.{url, shell_sessions, shell_ws}
use edge_guardian.Json.{num}
use edge_guardian.Api.Request.{Call, send_json, post}

pub record ShellSessionResponse : Type 0 where
  pub session_id : Text
  pub ws_ticket : Text

unfoldable pub create_shell_session : Text → Text → ℕ → ℕ → Call
create_shell_session token device_id rows cols =
    send_json post (url (shell_sessions device_id))
      ((codes "rows", num rows) ∷ (codes "cols", num cols) ∷ []) token

-- `base.replace(/^http/, "ws")`
unfoldable pub ws_base : Text → Text
ws_base base = if starts_with base (codes "http") then codes "ws" ++ drop 4 base else base

-- `API_BASE_URL`, and the window's origin if there is a window, are arguments.
unfoldable pub shell_web_socket_url : Text → Option Text → Text → Text
unfolding ws_base encode_uri_component
shell_web_socket_url api_base origin ticket =
    ws_base (or_else api_base (get_or origin []))
    ++ url shell_ws
    ++ codes "?ticket="
    ++ encode_uri_component ticket
