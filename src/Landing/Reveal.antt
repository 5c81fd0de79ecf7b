-- ===== src/Landing/Reveal.antt =====
-- ui/components/landing/scroll-reveal.tsx: the elements of the page that appear as they are scrolled
-- to. An element is a number, its place among the elements of the class `reveal`.
pub mod Once
use edge_guardian.Base.{ℕ, Bool, not, ◌==◌, List, [], ◌∷◌, any, filter, if◌then◌else◌}

-- What the observer reports of an element.
pub record ObserverEntry : Type 0 where
  pub target : ℕ
  pub is_intersecting : Bool

-- The elements that the observer watches, and those that have the class `revealed`.
pub record RevealState : Type 0 where
  pub observed : List ℕ
  pub revealed : List ℕ

unfoldable pub contains : ℕ → List ℕ → Bool
contains x xs = any (◌==◌ x) xs

-- `els.forEach((el) => io.observe(el))`
unfoldable pub observe_all : List ℕ → RevealState
observe_all els = record { observed = els; revealed = [] }

-- `classList.add` does not add a class twice.
unfoldable pub reveal : ℕ → RevealState → RevealState
unfolding contains
reveal x s = record {
  observed = filter (λ y. not (y == x)) s.observed;
  revealed = if contains x s.revealed then s.revealed else x ∷ s.revealed;
}

-- One call of the observer, with all its entries.
unfoldable pub on_entries : List ObserverEntry → RevealState → RevealState
unfolding reveal
on_entries [] s = s
on_entries (e ∷ es) s = on_entries es (if e.is_intersecting then reveal e.target s else s)

-- `io.disconnect()`, as the page is left.
unfoldable pub disconnect : RevealState → RevealState
disconnect s = record s { observed = [] }

unfoldable pub on_calls : List (List ObserverEntry) → RevealState → RevealState
unfolding on_entries
on_calls [] s = s
on_calls (es ∷ calls) s = on_calls calls (on_entries es s)
