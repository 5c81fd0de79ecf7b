-- ===== src/History/Window.antt =====
-- The history of a key is a window on everything that was pushed for it.
use edge_guardian.Base.{
  drop-nil, drop-drop, subst, ℕ, zero, suc, ◌-◌, ◌≤◌, ◌≡◌, refl, ap, sym, ◌∙◌, Bool, true, false,
  Option, none, some, List, [], ◌∷◌, ◌++◌, Text, ltb, if◌then◌else◌, length, drop, length-append,
  length-drop, lookup, lookup-insert_self, lookup-insert_ne, text_eq, text_eq_iff, arith,
  Bool-cases, min, append_assoc, append-nil, inl, inr,
}
use edge_guardian.History.{push_value, get, push}

module _ {ℓ} {V : Type ℓ} where
  -- The last `n` values.
  pub last : ℕ → List V → List V
  last n xs = drop (length xs - n) xs

  drop-append : (k : ℕ) (xs ys : List V) → k ≤ length xs → drop k (xs ++ ys) ≡ drop k xs ++ ys
  unfolding drop
  drop-append zero xs ys h = refl
  drop-append (suc k) [] ys h = absurd (omega arith)
  drop-append (suc k) (x ∷ xs) ys h = drop-append k xs ys (omega arith)

  -- To push onto a window and cut is to cut what was pushed.
  last-last : (n : ℕ) (xs ys : List V) → last n (last n xs ++ ys) ≡ last n (xs ++ ys)
  unfolding last
  last-last n xs ys =
      let k = length xs - n in
      ap (λ (zs : List V). drop (length zs - n) zs) (sym (drop-append k xs ys (omega arith)))
      ∙ drop-drop _ k (xs ++ ys)
      ∙ ap (λ (m : ℕ). drop m (xs ++ ys))
          (omega (arith, length-drop k (xs ++ ys), length-append xs ys))

  length-last : (n : ℕ) (xs : List V) → length (last n xs) ≡ min n (length xs)
  unfolding last
  length-last n xs = omega (arith, length-drop (length xs - n) xs)

  -- Everything that was pushed for a key, oldest first, without what is no number.
  module _ (is_nan : V → Bool) where
    pub kept : Text → List (Text × Option V) → List V
    kept key [] = []
    kept key ((k, none) ∷ events) = kept key events
    kept key ((k, some v) ∷ events) =
        if text_eq k key
        then (if is_nan v then kept key events else v ∷ kept key events)
        else kept key events

    -- The pushes of a page, in order.
    pub run : ℕ → List (Text × Option V) → List (Text × List V) → List (Text × List V)
    run most [] history = history
    run most ((k, v) ∷ events) history = run most events (push is_nan most k v history)

    push_value-last :
        (most : ℕ) (arr : List V) (v : V) → push_value is_nan most arr v ≡ last most (arr ++ v ∷ [])
    unfolding push_value last
    push_value-last most arr v = elim (Bool-cases (ltb most (length (arr ++ v ∷ [])))) [
      | inl e ↦ rw e refl
      | inr e ↦
          let short : length (arr ++ v ∷ []) - most ≡ 0 = ground arith in
          rw (e, short) (unfold drop in refl)
    ]

    get-push_self :
        (most : ℕ) (k : Text) (v : V) (h : List (Text × List V))
        → is_nan v ≡ false
        → get is_nan k (push is_nan most k (some v) h) ≡ last most (get is_nan k h ++ v ∷ [])
    unfolding get push
    get-push_self most k v h e =
        rw (e, lookup-insert_self) (push_value-last most (get is_nan k h) v)

    get-push_ne :
        (most : ℕ) (k key : Text) (v : Option V) (h : List (Text × List V))
        → text_eq k key ≡ false
        → get is_nan key (push is_nan most k v h) ≡ get is_nan key h
    unfolding get push
    get-push_ne most k key none h e = refl
    get-push_ne most k key (some v) h e = elim (Bool-cases (is_nan v)) [
      | inl n ↦ rw n refl
      | inr n ↦ rw (n, lookup-insert_ne, e) refl
    ]

    push-none : (most : ℕ) (k : Text) (h : List (Text × List V)) → push is_nan most k none h ≡ h
    unfolding push
    push-none most k h = refl

    push_nan :
        (most : ℕ) (k : Text) (v : V) (h : List (Text × List V))
        → is_nan v ≡ true
        → push is_nan most k (some v) h ≡ h
    unfolding push
    push_nan most k v h e = rw e refl

    -- The window of the key itself, from the window on `xs`.
    get-push_same :
        (most : ℕ) (k key : Text) (v : V) (h : List (Text × List V)) (xs : List V)
        → text_eq k key ≡ true
        → is_nan v ≡ false
        → get is_nan key h ≡ last most xs
        → get is_nan key (push is_nan most k (some v) h) ≡ last most (xs ++ v ∷ [])
    get-push_same most k key v h xs same e w =
        let k≡key = (text_eq_iff k key).0 same in
        subst
          (λ (q : Text). get is_nan q (push is_nan most k (some v) h) ≡ last most (xs ++ v ∷ []))
          k≡key
          (get-push_self most k v h e
            ∙ rw k≡key
                (ap (λ (l : List V). last most (l ++ v ∷ [])) w ∙ last-last most xs (v ∷ [])))

    -- The window of a key after a run, from the window on `xs`.
    get-run_from :
        (most : ℕ) (key : Text) (events : List (Text × Option V)) (h : List (Text × List V))
        (xs : List V)
        → get is_nan key h ≡ last most xs
        → get is_nan key (run most events h) ≡ last most (xs ++ kept key events)
    unfolding run kept
    get-run_from most key [] h xs e = rw append-nil e
    get-run_from most key ((k, none) ∷ events) h xs e =
        rw push-none (get-run_from most key events h xs e)
    get-run_from most key ((k, some v) ∷ events) h xs e = elim (Bool-cases (text_eq k key)) [
      | inl same ↦ elim (Bool-cases (is_nan v)) [
        | inl n ↦ rw (same, n, push_nan most k v h n) (get-run_from most key events h xs e)
        | inr n ↦
            rw (same, n)
              (get-run_from most key events _ (xs ++ v ∷ [])
                  (get-push_same most k key v h xs same n e)
                ∙ ap (last most) (append_assoc xs (v ∷ []) (kept key events)))
      ]
      | inr other ↦
          rw other (get-run_from most key events _ xs (get-push_ne most k key (some v) h other ∙ e))
    ]

    -- After any run of pushes on an empty history, the history of each key is exactly the last
    -- `most` of the values that were pushed for this key, oldest first, with null, undefined and
    -- NaN left out; so it never holds more than `most`, and no key disturbs another.
    pub get-run :
        (most : ℕ) (key : Text) (events : List (Text × Option V))
        → (get is_nan key (run most events []) ≡ last most (kept key events))
          × (length (get is_nan key (run most events [])) ≤ most)
    get-run most key events =
        let window : get is_nan key (run most events []) ≡ last most (kept key events) =
          get-run_from most key events [] []
            (unfold get lookup last in sym (drop-nil (0 - most))) in
        (window, rw window (omega (arith, length-last most (kept key events))))
