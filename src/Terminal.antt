-- ===== src/Terminal.antt =====
-- ui/app/(dashboard)/devices/[id]/terminal/page.tsx: the shell on a device. The browser's socket, the
-- terminal widget and the API call are the sources of the events.
pub mod Lifetime
pub mod Connection
pub mod Roles
pub mod Restarts
use edge_guardian.Base.{
  ℕ, Bool, true, false, not, ◌||◌, Option, none, some, List, [], ◌∷◌, ◌++◌, Text, codes, text_eq,
  leb, ◌==◌, ◌&&◌, if◌then◌else◌, get_or, lookup, any,
}
use edge_guardian.Query.{utf8}
use edge_guardian.Json.{str, num, stringify}
use edge_guardian.Api.Organizations.{MeOrganization}

-- `ROLE_RANK`, one more than in the source, so that 0 stands for the -1 of a role that is not there
abbrev pub role_rank : List (Text × ℕ)
role_rank =
    (codes "viewer", 1) ∷ (codes "operator", 2) ∷ (codes "admin", 3) ∷ (codes "owner", 4) ∷ []

abbrev pub rank_of : Text → ℕ
rank_of role = get_or (lookup role role_rank) 0

-- `currentOrg?.role?.toLowerCase() ?? ""`
abbrev pub role_of : (Text → Text) → Option MeOrganization → Text
role_of lower none = []
role_of lower (some o) = lower o.role

unfoldable pub allowed : (Text → Text) → Option MeOrganization → Bool
unfolding lookup
allowed lower org = leb (rank_of (codes "operator")) (rank_of (role_of lower org))

-- `canOpenShell` of the page of the device: whether it offers the terminal.
unfoldable pub can_open_shell : (Text → Text) → Option MeOrganization → Bool
unfolding any
can_open_shell lower org =
    any (λ r. text_eq r (role_of lower org)) (codes "operator" ∷ codes "admin" ∷ codes "owner" ∷ [])

pub data ConnectionStatus : Type 0 where
  connecting opened closed error : ConnectionStatus

-- `STATUS_LABEL`
unfoldable pub status_label : ConnectionStatus → Text
status_label connecting = codes "Connecting…"
status_label opened = codes "Connected"
status_label closed = codes "Disconnected"
status_label error = codes "Error"

-- Whether the button to connect again is there.
unfoldable pub offers_reconnect : ConnectionStatus → Bool
offers_reconnect closed = true
offers_reconnect error = true
offers_reconnect _ = false

-- How far the asynchronous function of the effect is: before the modules are there, before the
-- answer to `createShellSession`, or at its end.
pub data Stage : Type 0 where
  loading requesting finished : Stage

pub data Widget : Type 0 where
  no_widget mounted released : Widget

-- The socket and its `readyState`.
pub data Socket : Type 0 where
  no_socket socket_connecting socket_open socket_closing socket_closed : Socket

pub data Frame : Type 0 where
  text_frame bytes_frame : Text → Frame

-- The variables of one run of the effect, and the status of the page. `sent` is what went through
-- the socket, `screen` what was written to the terminal.
pub record Terminal : Type 0 where
  pub stage : Stage
  pub disposed : Bool
  pub widget : Widget
  pub observing : Bool
  pub socket : Socket
  pub rows : ℕ
  pub cols : ℕ
  pub status : ConnectionStatus
  pub sent : List Frame
  pub screen : List Text

-- A run starts with the status that the page has.
abbrev pub start : ConnectionStatus → Terminal
start status = record {
  stage = loading;
  disposed = false;
  widget = no_widget;
  observing = false;
  socket = no_socket;
  rows = 24;
  cols = 80;
  status = status;
  sent = [];
  screen = [];
}

pub data Event : Type 0 where
  modules_loaded : (has_container : Bool) → Event
  session_created : Event
  session_failed : (message : Text) → Event
  open_event : (rows cols : ℕ) → Event
  closing_started close_event error_event text_received cleaned_up : Event
  bytes_received typed : Text → Event
  resized : (rows cols : ℕ) → Event

abbrev pub is_open : Socket → Bool
is_open socket_open = true
is_open _ = false

abbrev pub send : Frame → Terminal → Terminal
send frame s = if is_open s.socket then record s { sent = s.sent ++ frame ∷ [] } else s

abbrev pub resize_text : ℕ → ℕ → Text
resize_text rows cols = stringify (
    (codes "type", str (codes "resize")) ∷ (codes "rows", num rows) ∷ (codes "cols", num cols) ∷ [])

unfoldable pub send_resize : ℕ → ℕ → Terminal → Terminal
send_resize rows cols s = send (text_frame (resize_text rows cols)) s

-- `ws.close()`, if there is a socket
abbrev pub close : Socket → Socket
close socket_connecting = socket_closing
close socket_open = socket_closing
close w = w

-- `term.dispose()`, if there is a terminal
abbrev pub release : Widget → Widget
release mounted = released
release w = w

-- What follows the two imports, up to the call of `createShellSession`.
unfoldable pub mount : Bool → Terminal → Terminal
mount has_container s =
    if s.disposed || not has_container
    then record s { stage = finished }
    else record s { stage = requesting; widget = mounted; status = connecting }

-- The rest of the function if the call fails, and if it returns.
unfoldable pub session_refused : Text → Terminal → Terminal
session_refused message s = if s.disposed then record s { stage = finished } else record s {
  stage = finished;
  status = error;
  screen = s.screen ++ (codes "Failed to open session: " ++ message) ∷ [];
}

unfoldable pub connect : Terminal → Terminal
connect s =
    if s.disposed
    then record s { stage = finished }
    else record s { stage = finished; socket = socket_connecting; observing = true }

-- `safeFit()` to a size that the widget measures: it reports a size that is new, `term.onResize`.
unfoldable pub fit_to : ℕ → ℕ → Terminal → Terminal
unfolding send_resize
fit_to rows cols s =
    if rows == s.rows && cols == s.cols
    then s
    else send_resize rows cols (record s { rows = rows; cols = cols })

-- `ws.onopen`, with the size that is measured then, `ws.onclose` and `ws.onerror`
unfoldable pub on_open : ℕ → ℕ → Terminal → Terminal
unfolding fit_to send_resize
on_open rows cols s =
    if s.disposed
    then s
    else send_resize rows cols (fit_to rows cols (record s { status = opened }))

unfoldable pub on_close : Terminal → Terminal
on_close s =
    if s.disposed
    then s
    else record s { status = closed; screen = s.screen ++ codes "session closed" ∷ [] }

unfoldable pub on_error : Terminal → Terminal
on_error s = if s.disposed then s else record s { status = error }

-- The function that the effect returns.
unfoldable pub clean_up : Terminal → Terminal
clean_up s = record s {
  disposed = true;
  observing = false;
  socket = close s.socket;
  widget = release s.widget;
}

-- What the page does at an event; the browser changes `readyState` before it calls a handler.
unfoldable pub step : Terminal → Event → Terminal
unfolding mount session_refused connect fit_to on_open on_close on_error clean_up send_resize
step s (modules_loaded has_container) = mount has_container s
step s session_created = connect s
step s (session_failed message) = session_refused message s
step s (open_event rows cols) = on_open rows cols (record s { socket = socket_open })
step s closing_started = record s { socket = socket_closing }
step s close_event = on_close (record s { socket = socket_closed })
step s error_event = on_error s
step s text_received = s
step s (bytes_received bytes) = record s { screen = s.screen ++ bytes ∷ [] }
step s (typed text) = send (bytes_frame (utf8 text)) s
step s (resized rows cols) = send_resize rows cols (record s { rows = rows; cols = cols })
step s cleaned_up = clean_up s
