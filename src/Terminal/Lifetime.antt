-- ===== src/Terminal/Lifetime.antt =====
-- What a run of the effect may still do, and what has become of its resources.
use edge_guardian.Base.{◌≡◌, ◌≢◌, ◌⊎◌, inl, inr, refl, true, false, arith}
use edge_guardian.Terminal.{
  loading, requesting, Widget, no_widget, mounted, released, Socket, no_socket, socket_connecting,
  socket_open, socket_closing, socket_closed, Terminal, Event, modules_loaded, session_created,
  session_failed, open_event, closing_started, close_event, error_event, text_received,
  bytes_received, typed, resized, cleaned_up, step, clean_up, close, release, mount,
  session_refused, connect, send_resize, fit_to, on_open, on_close, on_error,
}

-- The socket can still report something.
abbrev pub IsAlive : Socket → Type 0
IsAlive w = (w ≡ socket_connecting) ⊎ ((w ≡ socket_open) ⊎ (w ≡ socket_closing))

-- When the browser can report an event: the function goes on only where it waits, the socket opens
-- only once, and the widget reports only while it is there.
abbrev pub IsEnabled : Terminal → Event → Type 0
IsEnabled s (modules_loaded _) = s.stage ≡ loading
IsEnabled s session_created = s.stage ≡ requesting
IsEnabled s (session_failed _) = s.stage ≡ requesting
IsEnabled s (open_event _ _) = s.socket ≡ socket_connecting
IsEnabled s closing_started = IsAlive s.socket
IsEnabled s close_event = IsAlive s.socket
IsEnabled s error_event = IsAlive s.socket
IsEnabled s text_received = IsAlive s.socket
IsEnabled s (bytes_received _) = IsAlive s.socket
IsEnabled s (typed _) = s.widget ≡ mounted
IsEnabled s (resized _ _) = s.widget ≡ mounted
IsEnabled s cleaned_up = s.disposed ≡ false

-- What can follow a state.
pub data Reach (s : Terminal) : Terminal → Type 0 where
  here : Reach s s
  after : {t : Terminal} (e : Event) → Reach s t → IsEnabled t e → Reach s (step t e)

-- Nothing of the run is left that could act.
abbrev pub IsQuiet : Socket → Type 0
IsQuiet w = (w ≡ no_socket) ⊎ ((w ≡ socket_closing) ⊎ (w ≡ socket_closed))

pub record IsReleased (s t : Terminal) : Type 0 where
  pub over : t.disposed ≡ true
  pub unobserved : t.observing ≡ false
  pub dismounted : t.widget ≢ mounted
  pub quiet : IsQuiet t.socket
  pub same_status : t.status ≡ s.status
  pub nothing_sent : t.sent ≡ s.sent

release-mounted : (w : Widget) → release w ≢ mounted
release-mounted no_widget h = cc
release-mounted mounted h = cc
release-mounted released h = cc

pub close-IsQuiet : (w : Socket) → IsQuiet (close w)
close-IsQuiet no_socket = inl refl
close-IsQuiet socket_connecting = inr (inl refl)
close-IsQuiet socket_open = inr (inl refl)
close-IsQuiet socket_closing = inr (inl refl)
close-IsQuiet socket_closed = inr (inr refl)

clean_up-IsReleased : (s : Terminal) → IsReleased s (clean_up s)
unfolding clean_up
clean_up-IsReleased s = record {
  over = refl;
  unobserved = refl;
  dismounted = release-mounted s.widget;
  quiet = close-IsQuiet s.socket;
  same_status = refl;
  nothing_sent = refl;
}

step-IsReleased :
    (s t : Terminal) (e : Event) → IsReleased s t → IsEnabled t e → IsReleased s (step t e)
unfolding step mount session_refused connect send_resize fit_to on_open on_close on_error clean_up
step-IsReleased s t (modules_loaded b) h o = ground arith
step-IsReleased s t session_created h o = ground arith
step-IsReleased s t (session_failed m) h o = ground arith
step-IsReleased s t (open_event r c) h o = ground arith
step-IsReleased s t closing_started h o = ground arith
step-IsReleased s t close_event h o = ground arith
step-IsReleased s t error_event h o = ground arith
step-IsReleased s t text_received h o = h
step-IsReleased s t (bytes_received b) h o = ground arith
step-IsReleased s t (typed x) h o = absurd (h.dismounted o)
step-IsReleased s t (resized r c) h o = absurd (h.dismounted o)
step-IsReleased s t cleaned_up h o = ground arith

-- Whatever was going on when the effect is cleaned up, and whatever the browser still reports
-- afterwards, the run does not change the status of the page, sends nothing, has no terminal on the
-- page, observes no size, and its socket is closed or closing, if it ever had one.
pub Reach-clean_up-IsReleased : (s t : Terminal) → Reach (clean_up s) t → IsReleased s t
Reach-clean_up-IsReleased s t here = clean_up-IsReleased s
Reach-clean_up-IsReleased s t (after e r o) =
    step-IsReleased s _ e (Reach-clean_up-IsReleased s _ r) o
