-- ===== src/Terminal/Restarts.antt =====
-- ui/app/(dashboard)/devices/[id]/terminal/page.tsx: the page over several runs of its effect. The
-- runs before the present one are cleaned up, so that they change nothing any more.
pub mod Liveness
use edge_guardian.Base.{ℕ, suc, ◌≡◌, Bool, true, not, ◌&&◌, Text, text_eq, truthy, if◌then◌else◌}
use edge_guardian.Terminal.{
  Terminal, finished, connecting, start, step, clean_up, offers_reconnect, Event, modules_loaded,
  cleaned_up,
}
use edge_guardian.Terminal.Lifetime.{IsEnabled}

-- `!(!token || !id || !allowed || !containerRef.current)`: else the effect does nothing.
unfoldable pub effect_runs : Text → Text → Bool → Bool → Bool
effect_runs token id may_open has_container = truthy token && truthy id && may_open && has_container

-- What the effect depends on, `attempt`, and the present run, which holds the status. The container is
-- on the page exactly if the user is allowed to open a shell.
pub record TerminalPage : Type 0 where
  pub token : Text
  pub id : Text
  pub may_open : Bool
  pub attempt : ℕ
  pub run : Terminal

unfoldable pub runs : TerminalPage → Bool
unfolding effect_runs
runs p = effect_runs p.token p.id p.may_open p.may_open

-- The effect: a new run that starts with the status of the page, or nothing, and what the run before
-- has left.
unfoldable pub run_effect : TerminalPage → TerminalPage
unfolding runs
run_effect p = if runs p then record p { run = start p.run.status } else p

-- No run, with the status that the page starts with.
abbrev pub no_run : Terminal
no_run = record (start connecting) { stage = finished; disposed = true }

-- The page when its effect runs for the first time.
unfoldable pub opened_page : Text → Text → Bool → TerminalPage
unfolding run_effect
opened_page token id may_open =
    run_effect (record { token = token; id = id; may_open = may_open; attempt = 0; run = no_run })

-- The effect once more, after what it returned.
unfoldable pub restart : TerminalPage → TerminalPage
unfolding clean_up run_effect
restart p = run_effect (record p { run = clean_up p.run })

-- `setAttempt((n) => n + 1)`, on a button that is there only after a failure.
unfoldable pub reconnect : TerminalPage → TerminalPage
unfolding restart offers_reconnect
reconnect p =
    if offers_reconnect p.run.status then restart (record p { attempt = suc p.attempt }) else p

-- The token and the role come and change with the session and the organizations; the effect runs anew
-- only for a value that differs.
pub data PageEvent : Type 0 where
  run_event : Event → PageEvent
  reconnect_clicked : PageEvent
  token_changed : Text → PageEvent
  role_changed : Bool → PageEvent

unfoldable pub page_step : TerminalPage → PageEvent → TerminalPage
unfolding step restart reconnect
page_step p (run_event e) = record p { run = step p.run e }
page_step p reconnect_clicked = reconnect p
page_step p (token_changed token) =
    if text_eq token p.token then p else restart (record p { token = token })
page_step p (role_changed may_open) =
    if (if may_open then p.may_open else not p.may_open)
    then p
    else restart (record p { may_open = may_open })

-- While the page is there, so is the container of a run, and the effect is cleaned up only by a
-- restart.
abbrev pub IsOnPage : Event → Type 0
IsOnPage (modules_loaded has_container) = has_container ≡ true
IsOnPage cleaned_up = ⊥
IsOnPage _ = Unit

abbrev pub IsPossible : TerminalPage → PageEvent → Type 0
IsPossible p (run_event e) = IsEnabled p.run e × IsOnPage e
IsPossible p reconnect_clicked = offers_reconnect p.run.status ≡ true
IsPossible p (token_changed _) = Unit
IsPossible p (role_changed _) = Unit

-- What can follow a page in so many events.
pub data Follows (p : TerminalPage) : ℕ → TerminalPage → Type 0 where
  at_once : Follows p 0 p
  later :
      {n : ℕ} {q : TerminalPage} (e : PageEvent)
      → Follows p n q
      → IsPossible q e
      → Follows p (suc n) (page_step q e)
