-- ===== src/Terminal/Restarts/Liveness.antt =====
-- The page can always get to a connection.
use edge_guardian.Base.{
  ℕ, suc, ◌≤◌, ◌≡◌, ◌≢◌, ◌⊎◌, inl, inr, refl, sym, ap, ◌∙◌, Bool, Bool-cases, Text, [], ◌∷◌, true,
  false, not, arith, text_eq, truthy, and_split, if◌then◌else◌,
}
use edge_guardian.Terminal.{
  ConnectionStatus, opened, closed, error, Stage, loading, requesting, finished, Socket, no_socket,
  socket_connecting, socket_open, socket_closing, socket_closed, Terminal, start, Event,
  modules_loaded, session_created, session_failed, open_event, closing_started, close_event,
  error_event, text_received, bytes_received, typed, resized, cleaned_up, step, clean_up, mount,
  session_refused, connect, on_open, on_close, on_error, send_resize, fit_to, offers_reconnect,
}
use edge_guardian.Terminal.Lifetime.{IsEnabled}
use edge_guardian.Terminal.Restarts.{
  TerminalPage, no_run, effect_runs, runs, run_effect, role_changed, opened_page, restart,
  reconnect, PageEvent, run_event, reconnect_clicked, token_changed, page_step, IsOnPage,
  IsPossible, Follows, at_once, later,
}

-- A run that has come to an end shows the failure, so that the button is there.
pub record IsLive (t : Terminal) : Type 0 where
  pub ongoing : t.disposed ≡ false
  pub waiting : (t.stage ≡ finished) ⊎ (t.socket ≡ no_socket)
  pub refused : (t.stage ≢ finished) ⊎ ((t.socket ≢ no_socket) ⊎ (t.status ≡ error))
  pub ended : (t.socket ≢ socket_closed) ⊎ (t.status ≡ closed)
  pub up : (t.socket ≢ socket_open) ⊎ ((t.status ≡ opened) ⊎ (t.status ≡ error))

start-IsLive : (status : ConnectionStatus) → IsLive (start status)
start-IsLive status = ground arith

step-IsLive : (t : Terminal) (e : Event) → IsLive t → IsEnabled t e → IsOnPage e → IsLive (step t e)
unfolding step mount session_refused connect on_open on_close on_error clean_up send_resize fit_to
step-IsLive t (modules_loaded b) h o c = ground arith
step-IsLive t session_created h o c = ground arith
step-IsLive t (session_failed m) h o c = ground arith
step-IsLive t (open_event r k) h o c = ground arith
step-IsLive t closing_started h o c = ground arith
step-IsLive t close_event h o c = ground arith
step-IsLive t error_event h o c = ground arith
step-IsLive t text_received h o c = h
step-IsLive t (bytes_received b) h o c = ground arith
step-IsLive t (typed x) h o c = ground arith
step-IsLive t (resized r k) h o c = ground arith
step-IsLive t cleaned_up h o c = elim c [ ]

-- The three things without which the effect does nothing.
abbrev pub HasAccess : TerminalPage → Type 0
HasAccess p = (p.token ≢ []) × (p.id ≢ []) × (p.may_open ≡ true)

abbrev pub LacksAccess : TerminalPage → Type 0
LacksAccess p = (p.token ≡ []) ⊎ ((p.id ≡ []) ⊎ (p.may_open ≡ false))

runs-HasAccess : (p : TerminalPage) → runs p ≡ true → HasAccess p
unfolding runs effect_runs
runs-HasAccess p h =
    let (three, m) = and_split _ _ h in
    let (two, _) = and_split _ _ three in
    let (t, i) = and_split _ _ two in
    (
      λ e. let z : true ≡ false = sym t ∙ ap truthy e in cc,
      λ e. let z : true ≡ false = sym i ∙ ap truthy e in cc,
      m,
    )

truthy-empty : (t : Text) → truthy t ≡ false → t ≡ []
truthy-empty [] h = refl
truthy-empty (c ∷ t) h = absurd cc

runs-LacksAccess : (p : TerminalPage) → runs p ≡ false → LacksAccess p
unfolding runs effect_runs
runs-LacksAccess p h = elim (Bool-cases (truthy p.token)) [
  | inr t ↦ inl (truthy-empty p.token t)
  | inl t ↦ elim (Bool-cases (truthy p.id)) [
    | inr i ↦ inr (inl (truthy-empty p.id i))
    | inl i ↦ inr (inr (ground arith))
  ]
]

-- A page whose effect runs has a live run, and another's is over.
LiveIfRuns : TerminalPage → Type 0
LiveIfRuns p = ((runs p ≡ false) × (p.run.disposed ≡ true)) ⊎ ((runs p ≡ true) × IsLive p.run)

step-disposed :
    (t : Terminal) (e : Event) → t.disposed ≡ true → IsOnPage e → (step t e).disposed ≡ true
unfolding step mount session_refused connect on_open on_close on_error clean_up send_resize fit_to
step-disposed t (modules_loaded b) h c = ground arith
step-disposed t session_created h c = ground arith
step-disposed t (session_failed m) h c = ground arith
step-disposed t (open_event r k) h c = ground arith
step-disposed t closing_started h c = h
step-disposed t close_event h c = ground arith
step-disposed t error_event h c = ground arith
step-disposed t text_received h c = h
step-disposed t (bytes_received b) h c = ground arith
step-disposed t (typed x) h c = ground arith
step-disposed t (resized r k) h c = ground arith
step-disposed t cleaned_up h c = elim c [ ]

run_effect-IsLive : (p : TerminalPage) → p.run.disposed ≡ true → LiveIfRuns (run_effect p)
unfolding LiveIfRuns run_effect
run_effect-IsLive p d = elim (Bool-cases (runs p)) [
  | inl e ↦ inr (rw e (e, start-IsLive p.run.status))
  | inr e ↦ inl (rw e (e, d))
]

restart-IsLive : (p : TerminalPage) → LiveIfRuns (restart p)
unfolding restart clean_up
restart-IsLive p = run_effect-IsLive (record p { run = clean_up p.run }) refl

page_step-IsLive :
    (p : TerminalPage) (e : PageEvent) → LiveIfRuns p → IsPossible p e → LiveIfRuns (page_step p e)
unfolding page_step reconnect LiveIfRuns runs
page_step-IsLive p (run_event e) h (o, c) = elim h [
  | inl (q, d) ↦ inl (q, step-disposed p.run e d c)
  | inr (q, live) ↦ inr (q, step-IsLive p.run e live o c)
]
page_step-IsLive p reconnect_clicked h o =
    rw o (restart-IsLive (record p { attempt = suc p.attempt }))
page_step-IsLive p (token_changed t) h o = elim (Bool-cases (text_eq t p.token)) [
  | inl e ↦ rw e h
  | inr e ↦ rw e (restart-IsLive (record p { token = t }))
]
page_step-IsLive p (role_changed b) h o =
    elim (Bool-cases (if b then p.may_open else not p.may_open)) [
      | inl e ↦ rw e h
      | inr e ↦ rw e (restart-IsLive (record p { may_open = b }))
    ]

Follows-IsLive :
    (token id : Text) (may_open : Bool) (n : ℕ) (p : TerminalPage)
    → Follows (opened_page token id may_open) n p
    → LiveIfRuns p
unfolding opened_page
Follows-IsLive token id m n p at_once =
    run_effect-IsLive (record { token = token; id = id; may_open = m; attempt = 0; run = no_run })
      refl
Follows-IsLive token id m n p (later e f o) =
    page_step-IsLive _ e (Follows-IsLive token id m _ _ f) o

Follows-first :
    (p : TerminalPage) (e : PageEvent)
    → IsPossible p e
    → {n : ℕ} {q : TerminalPage} → Follows (page_step p e) n q
    → Follows p (suc n) q
Follows-first p e o at_once = later e at_once o
Follows-first p e o (later d f w) = later d (Follows-first p e o f) w

-- So many events lead to a page that shows a connection.
abbrev pub CanOpen : ℕ → TerminalPage → Type 0
CanOpen n p = (q : TerminalPage) × Follows p n q × (q.run.status ≡ opened)

first :
    {n : ℕ} (p : TerminalPage) (e : PageEvent)
    → IsPossible p e
    → CanOpen n (page_step p e)
    → CanOpen (suc n) p
first p e o (q, f, s) = (q, Follows-first p e o f, s)

CanOpen-connecting :
    (p : TerminalPage) → p.run.disposed ≡ false → p.run.socket ≡ socket_connecting → CanOpen 1 p
unfolding page_step step on_open fit_to send_resize
CanOpen-connecting p d h = (
  page_step p (run_event (open_event p.run.rows p.run.cols)),
  later (run_event (open_event p.run.rows p.run.cols)) at_once (h, tt),
  ground arith,
)

CanOpen-requesting :
    (p : TerminalPage) → p.run.disposed ≡ false → p.run.stage ≡ requesting → CanOpen 2 p
unfolding page_step step connect
CanOpen-requesting p d h =
    first p (run_event session_created) (h, tt)
      (CanOpen-connecting (page_step p (run_event session_created)) (ground arith) (ground arith))

CanOpen-loading : (p : TerminalPage) → p.run.disposed ≡ false → p.run.stage ≡ loading → CanOpen 3 p
unfolding page_step step mount
CanOpen-loading p d h =
    first p (run_event (modules_loaded true)) (h, refl)
      (CanOpen-requesting (page_step p (run_event (modules_loaded true))) (ground arith)
        (ground arith))

CanOpen-failed :
    (p : TerminalPage) → runs p ≡ true → offers_reconnect p.run.status ≡ true → CanOpen 4 p
unfolding page_step reconnect restart run_effect runs
CanOpen-failed p g o =
    first p reconnect_clicked o
      (CanOpen-loading (page_step p reconnect_clicked) (ground arith) (ground arith))

CanOpen-closing :
    (p : TerminalPage)
    → runs p ≡ true
    → p.run.disposed ≡ false
    → p.run.socket ≡ socket_closing
    → CanOpen 5 p
unfolding page_step step on_close offers_reconnect runs
CanOpen-closing p g d h =
    first p (run_event close_event) (inr (inr h), tt)
      (CanOpen-failed (page_step p (run_event close_event)) g (ground arith))

CanOpen-finished :
    (p : TerminalPage) (w : Socket)
    → runs p ≡ true
    → w ≡ p.run.socket
    → p.run.stage ≡ finished
    → IsLive p.run
    → (n : ℕ) × (n ≤ 5) × CanOpen n p
unfolding offers_reconnect
CanOpen-finished p no_socket g e f h = (4, omega arith, CanOpen-failed p g (ground arith))
CanOpen-finished p socket_connecting g e f h =
    (1, omega arith, CanOpen-connecting p h.ongoing (sym e))
CanOpen-finished p socket_open g e f h = elim h.up [
  | inl other ↦ absurd (other (sym e))
  | inr (inl o) ↦ (0, omega arith, (p, at_once, o))
  | inr (inr o) ↦ (4, omega arith, CanOpen-failed p g (ground arith))
]
CanOpen-finished p socket_closing g e f h = (5, omega arith, CanOpen-closing p g h.ongoing (sym e))
CanOpen-finished p socket_closed g e f h = (4, omega arith, CanOpen-failed p g (ground arith))

CanOpen-live :
    (p : TerminalPage) (w : Stage)
    → runs p ≡ true
    → w ≡ p.run.stage
    → IsLive p.run
    → (n : ℕ) × (n ≤ 5) × CanOpen n p
CanOpen-live p loading g e h = (3, omega arith, CanOpen-loading p h.ongoing (sym e))
CanOpen-live p requesting g e h = (2, omega arith, CanOpen-requesting p h.ongoing (sym e))
CanOpen-live p finished g e h = CanOpen-finished p p.run.socket g refl (sym e) h

-- Whatever has happened on the page of the terminal, while it is open, changes of the token and of the
-- role included: either there are a token and a device and the role may open a shell, and then at most
-- five events, each of which the browser can report or the user can cause at that point, lead to a page
-- that shows a connection; or one of the three is missing, and then no run of the effect is left that is
-- not cleaned up.
pub Follows-CanOpen :
    (token id : Text) (may_open : Bool) (n : ℕ) (p : TerminalPage)
    → Follows (opened_page token id may_open) n p
    → (HasAccess p × ((k : ℕ) × (k ≤ 5) × CanOpen k p)) ⊎ (LacksAccess p × (p.run.disposed ≡ true))
unfolding LiveIfRuns
Follows-CanOpen token id may_open n p f = elim (Follows-IsLive token id may_open n p f) [
  | inl (g, d) ↦ inr (runs-LacksAccess p g, d)
  | inr (g, live) ↦ inl (runs-HasAccess p g, CanOpen-live p p.run.stage g refl live)
]
