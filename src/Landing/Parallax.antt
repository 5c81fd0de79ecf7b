-- ===== src/Landing/Parallax.antt =====
-- ui/components/landing/parallax-wrapper.tsx: the mockup moves a little as the page is scrolled.
use edge_guardian.Base.{
  ℕ, suc, Bool, true, false, not, ◌≡◌, refl, ◌∙◌, ◌==◌, Option, none, some, List, [], ◌∷◌, ◌++◌,
  filter, if◌then◌else◌, Bool-cases, inl, inr,
}

-- The element of the ref, the listener, the last frame that was asked for, the frames that the browser
-- has yet to run, the number of the next, and the shift of the element.
pub record ParallaxState : Type 0 where
  pub attached : Bool
  pub listening : Bool
  pub raf : Option ℕ
  pub queued : List ℕ
  pub next_frame : ℕ
  pub shift : Option ℕ

abbrev pub mounted : ParallaxState
mounted = record {
  attached = true;
  listening = true;
  raf = none;
  queued = [];
  next_frame = 1;
  shift = none;
}

-- `onScroll` asks for a frame, also while another waits.
unfoldable pub scrolled : ParallaxState → ParallaxState
scrolled s =
    if s.listening
    then record s {
      raf = some s.next_frame;
      queued = s.queued ++ s.next_frame ∷ [];
      next_frame = suc s.next_frame;
    }
    else s

-- The browser runs the frames that wait; `scale` is `window.scrollY * 0.12`.
unfoldable pub run_frames : (scale : ℕ → ℕ) (scroll_y : ℕ) → List ℕ → ParallaxState → ParallaxState
run_frames scale scroll_y [] s = record s { queued = [] }
run_frames scale scroll_y (f ∷ fs) s =
    run_frames scale scroll_y fs
      (if s.attached then record s { shift = some (scale scroll_y) } else s)

-- `cancelAnimationFrame(raf)`
unfoldable pub cancelled : Option ℕ → List ℕ → List ℕ
cancelled none queued = queued
cancelled (some f) queued = filter (λ g. not (f == g)) queued

-- The end of the page: React takes the element out of the ref, and the clean-up follows.
unfoldable pub unmount : ParallaxState → ParallaxState
unfolding cancelled
unmount s = record s { attached = false; listening = false; queued = cancelled s.raf s.queued }

pub data ParallaxEvent : Type 0 where
  scrolls page_ends : ParallaxEvent
  frame : (scroll_y : ℕ) → ParallaxEvent

unfoldable pub on_parallax : (ℕ → ℕ) → ParallaxEvent → ParallaxState → ParallaxState
unfolding scrolled run_frames unmount
on_parallax scale scrolls s = scrolled s
on_parallax scale page_ends s = unmount s
on_parallax scale (frame scroll_y) s = run_frames scale scroll_y s.queued s

unfoldable pub run_parallax : (ℕ → ℕ) → List ParallaxEvent → ParallaxState → ParallaxState
unfolding on_parallax
run_parallax scale [] s = s
run_parallax scale (e ∷ es) s = run_parallax scale es (on_parallax scale e s)

module _ (scale : ℕ → ℕ) where
  run_frames-detached :
      (y : ℕ) (fs : List ℕ) (s : ParallaxState)
      → s.attached ≡ false
      → ((run_frames scale y fs s).attached ≡ false) × ((run_frames scale y fs s).shift ≡ s.shift)
  unfolding run_frames
  run_frames-detached y [] s h = (h, refl)
  run_frames-detached y (f ∷ fs) s h = simp h (run_frames-detached y fs s h)

  on_parallax-detached :
      (e : ParallaxEvent) (s : ParallaxState)
      → s.attached ≡ false
      → ((on_parallax scale e s).attached ≡ false) × ((on_parallax scale e s).shift ≡ s.shift)
  unfolding on_parallax scrolled unmount
  on_parallax-detached scrolls s h = elim (Bool-cases s.listening) [
    | inl z ↦ rw z (h, refl)
    | inr z ↦ rw z (h, refl)
  ]
  on_parallax-detached page_ends s h = (refl, refl)
  on_parallax-detached (frame y) s h = run_frames-detached y s.queued s h

  run_parallax-detached :
      (es : List ParallaxEvent) (s : ParallaxState)
      → s.attached ≡ false
      → (run_parallax scale es s).shift ≡ s.shift
  unfolding run_parallax
  run_parallax-detached [] s h = refl
  run_parallax-detached (e ∷ es) s h =
      let (a, b) = on_parallax-detached e s h in
      run_parallax-detached es (on_parallax scale e s) a ∙ b

  -- Once the page is left no frame moves the element, although the clean-up cancels only the last of
  -- the frames that wait.
  pub run_parallax-unmount :
      (es : List ParallaxEvent) (s : ParallaxState)
      → (run_parallax scale es (unmount s)).shift ≡ s.shift
  unfolding unmount
  run_parallax-unmount es s = run_parallax-detached es (unmount s) refl
