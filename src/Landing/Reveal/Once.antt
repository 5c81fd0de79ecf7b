-- ===== src/Landing/Reveal/Once.antt =====
-- Which elements have appeared, and which the observer still watches.
use edge_guardian.Base.{
  ℕ, Bool, true, not, ◌==◌, ◌||◌, ◌&&◌, ◌≡◌, refl, List, [], ◌∷◌, any, filter, Bool-cases, inl, inr,
  arith, filter-filter, filter_all, filter_ext, ap, ==_iff, subst, sym, ◌∙◌,
}
use edge_guardian.Landing.Reveal.{
  ObserverEntry, RevealState, contains, observe_all, reveal, on_entries, on_calls,
}

-- Whether an entry reports that an element has come into view.
unfoldable pub came : ℕ → List ObserverEntry → Bool
came x es = any (λ (e : ObserverEntry). e.is_intersecting && (x == e.target)) es

-- The same for the entries of several calls.
unfoldable pub came_ever : ℕ → List (List ObserverEntry) → Bool
unfolding came
came_ever x calls = any (came x) calls

module _ (x y : ℕ) where
  contains-same : (r : List ℕ) → contains y r ≡ true → contains x r ≡ (contains x r || (x == y))
  contains-same r e = elim (Bool-cases (x == y)) [
    | inl z ↦
        let there : contains x r ≡ true =
          subst (λ (v : ℕ). contains v r ≡ true) (sym ((==_iff x y).0 z)) e in
        rw there refl
    | inr z ↦ rw z ground arith
  ]

  contains-reveal :
      (s : RevealState) → contains x (reveal y s).revealed ≡ (contains x s.revealed || (x == y))
  unfolding reveal contains any
  contains-reveal s = elim (Bool-cases (contains y s.revealed)) [
    | inl e ↦ rw e (contains-same s.revealed e)
    | inr e ↦ rw e ground arith
  ]

-- An element is revealed once an entry has reported it.
contains-on_entries :
    (x : ℕ) (es : List ObserverEntry) (s : RevealState)
    → contains x (on_entries es s).revealed ≡ (contains x s.revealed || came x es)
unfolding on_entries came any
contains-on_entries x [] s = ground arith
contains-on_entries x (e ∷ es) s = elim (Bool-cases e.is_intersecting) [
  | inl z ↦
      let rest = contains-on_entries x es (reveal e.target s) in
      let now = contains-reveal x e.target s in ground arith
  | inr z ↦ rw z (contains-on_entries x es s)
]

-- An element is watched until an entry has reported it.
observed-on_entries :
    (es : List ObserverEntry) (s : RevealState)
    → (on_entries es s).observed ≡ filter (λ x. not (came x es)) s.observed
unfolding on_entries came reveal any
observed-on_entries [] s = sym (filter_all s.observed)
observed-on_entries (e ∷ es) s = elim (Bool-cases e.is_intersecting) [
  | inl z ↦ rw z (
      observed-on_entries es (reveal e.target s)
      ∙ filter-filter _ _ s.observed
      ∙ filter_ext _ _ s.observed (λ x. ground arith))
  | inr z ↦ rw z (observed-on_entries es s)
]

contains-on_calls :
    (x : ℕ) (calls : List (List ObserverEntry)) (s : RevealState)
    → contains x (on_calls calls s).revealed ≡ (contains x s.revealed || came_ever x calls)
unfolding on_calls came_ever any
contains-on_calls x [] s = ground arith
contains-on_calls x (es ∷ calls) s =
    let rest = contains-on_calls x calls (on_entries es s) in
    let now = contains-on_entries x es s in ground arith

observed-on_calls :
    (calls : List (List ObserverEntry)) (s : RevealState)
    → (on_calls calls s).observed ≡ filter (λ x. not (came_ever x calls)) s.observed
unfolding on_calls came_ever any
observed-on_calls [] s = sym (filter_all s.observed)
observed-on_calls (es ∷ calls) s =
    observed-on_calls calls (on_entries es s)
    ∙ ap (filter (λ x. not (came_ever x calls))) (observed-on_entries es s)
    ∙ filter-filter _ _ s.observed
    ∙ filter_ext _ _ s.observed (λ x. ground arith)

-- However the observer reports the elements, in calls of several entries: an element is revealed
-- exactly if one of the entries found it in view, and the observer still watches exactly those of
-- the elements that no entry has found in view.
pub on_calls-observe_all :
    (els : List ℕ) (calls : List (List ObserverEntry))
    → ((x : ℕ) → contains x (on_calls calls (observe_all els)).revealed ≡ came_ever x calls)
      × ((on_calls calls (observe_all els)).observed ≡ filter (λ x. not (came_ever x calls)) els)
unfolding observe_all contains any
on_calls-observe_all els calls =
    (λ x. contains-on_calls x calls (observe_all els), observed-on_calls calls (observe_all els))
