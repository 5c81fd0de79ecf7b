-- ===== src/Tests/Shell.antt =====
-- ui/app/(dashboard)/devices/[id]/terminal/page.tsx at concrete inputs.
use edge_guardian.Terminal.{fit_to, session_failed, session_refused}
use edge_guardian.Terminal.Restarts.{
  TerminalPage, runs, run_effect, opened_page, page_step, run_event, Follows, at_once, later,
}
use edge_guardian.Terminal.Restarts.Liveness.{HasAccess, LacksAccess, CanOpen, Follows-CanOpen}
use edge_guardian.Base.{ℕ, ◌≤◌, ◌≡◌, ◌⊎◌, inr, refl, true, some, Text, codes, Option}
use edge_guardian.Api.Organizations.{MeOrganization}
use edge_guardian.Terminal.{
  Terminal, start, step, clean_up, connecting, modules_loaded, session_created, open_event, typed,
  close_event, allowed, can_open_shell, mount, connect, on_open, send_resize,
}
use edge_guardian.Terminal.Roles.{can_open_shell-allowed}
use edge_guardian.Terminal.Lifetime.{Reach, here, after, IsReleased, Reach-clean_up-IsReleased}

abbrev operator : Option MeOrganization
operator = some (record { id = 1; name = codes "Org"; slug = codes "org"; role = codes "operator" })

abbrev lower : Text → Text
lower s = s

operator_role : can_open_shell lower operator ≡ allowed lower operator
operator_role = can_open_shell-allowed lower operator

abbrev asked : Terminal
asked = step (start connecting) (modules_loaded true)

abbrev created : Terminal
created = step asked session_created

abbrev running : Terminal
running = step created (open_event 30 100)

abbrev used : Terminal
used = step running (typed (codes "ls"))

abbrev ended : Terminal
ended = step (clean_up used) close_event

ended-Reach : Reach (clean_up used) ended
unfolding step mount connect on_open fit_to send_resize clean_up
ended-Reach = after close_event here (inr (inr refl))

Reach-clean_up-IsReleased_example : IsReleased used ended
Reach-clean_up-IsReleased_example = Reach-clean_up-IsReleased used ended ended-Reach

-- A session that was refused.
abbrev refused_page : TerminalPage
refused_page =
    page_step
      (page_step (opened_page (codes "t") (codes "pi-1") true) (run_event (modules_loaded true)))
      (run_event (session_failed (codes "offline")))

refused-Follows : Follows (opened_page (codes "t") (codes "pi-1") true) 2 refused_page
unfolding page_step step mount session_refused opened_page run_effect runs
refused-Follows =
    later (run_event (session_failed (codes "offline")))
      (later (run_event (modules_loaded true)) at_once (refl, refl)) (refl, tt)

Follows-CanOpen_example :
    (HasAccess refused_page × ((k : ℕ) × (k ≤ 5) × CanOpen k refused_page))
    ⊎ (LacksAccess refused_page × (refused_page.run.disposed ≡ true))
Follows-CanOpen_example =
    Follows-CanOpen (codes "t") (codes "pi-1") true 2 refused_page refused-Follows
