-- ===== src/Base/Split.antt =====
-- `s.split(c)` and `parts.join(c)` for a separator of one code point.
use Prim.Native.Nat.{ℕ}
use mathlib.Core.Path.{◌≡◌, ap, ◌∙◌}
use mathlib.Core.Logic.{◌≢◌, inl, inr}
use mathlib.Core.List.{List, [], ◌∷◌, ◌++◌, append_assoc, append-nil}
use native.Mathlib.Omega.{arith}
use edge_guardian.Base.Tests.{◌==◌, if◌then◌else◌, Bool-cases}
use edge_guardian.Base.Lists.{All}
use edge_guardian.Base.Texts.{Text}

-- `cur` is what was read since the last separator.
unfoldable pub split_from : ℕ → Text → Text → List Text
split_from sep cur [] = cur ∷ []
split_from sep cur (c ∷ s) =
    let closed = cur ∷ split_from sep [] s in
    let longer = split_from sep (cur ++ c ∷ []) s in if c == sep then closed else longer

unfoldable pub join : ℕ → List Text → Text
join sep [] = []
join sep (p ∷ []) = p
join sep (p ∷ q ∷ parts) = p ++ sep ∷ join sep (q ∷ parts)

abbrev pub Without : ℕ → Text → Type 0
Without sep = All (λ c. c ≢ sep)

pub split_from_last :
    (sep : ℕ) (cur s : Text) → Without sep s → split_from sep cur s ≡ (cur ++ s) ∷ []
unfolding split_from
split_from_last sep cur [] h = rw append-nil
split_from_last sep cur (c ∷ s) (h, hs) =
    ground (arith, split_from_last sep (cur ++ c ∷ []) s hs, append_assoc cur (c ∷ []) s)

pub split_from_part :
    (sep : ℕ) (cur s rest : Text)
    → Without sep s
    → split_from sep cur (s ++ sep ∷ rest) ≡ (cur ++ s) ∷ split_from sep [] rest
unfolding split_from
split_from_part sep cur [] rest h = rw append-nil (ground arith)
split_from_part sep cur (c ∷ s) rest (h, hs) =
    ground (arith, split_from_part sep (cur ++ c ∷ []) s rest hs, append_assoc cur (c ∷ []) s)

-- Parts that hold no separator are found again.
pub split_from-join :
    (sep : ℕ) (p : Text) (parts : List Text)
    → All (Without sep) (p ∷ parts)
    → split_from sep [] (join sep (p ∷ parts)) ≡ p ∷ parts
unfolding join
split_from-join sep p [] (h, hs) = split_from_last sep [] p h
split_from-join sep p (q ∷ parts) (h, hs) =
    split_from_part sep [] p (join sep (q ∷ parts)) h ∙ ap (◌∷◌ p) (split_from-join sep q parts hs)

Without-snoc : (sep c : ℕ) (s : Text) → Without sep s → c ≢ sep → Without sep (s ++ c ∷ [])
Without-snoc sep c [] h ne = (ne, tt)
Without-snoc sep c (d ∷ s) (h, hs) ne = (h, Without-snoc sep c s hs ne)

-- No part holds the separator.
pub split_from-Without :
    (sep : ℕ) (cur s : Text) → Without sep cur → All (Without sep) (split_from sep cur s)
unfolding split_from
split_from-Without sep cur [] h = (h, tt)
split_from-Without sep cur (c ∷ s) h = elim (Bool-cases (c == sep)) [
  | inl e ↦ rw e (h, split_from-Without sep [] s tt)
  | inr e ↦
      rw e (split_from-Without sep (cur ++ c ∷ []) s (Without-snoc sep c cur h (ground arith)))
]
