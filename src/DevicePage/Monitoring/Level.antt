-- ===== src/DevicePage/Monitoring/Level.antt =====
-- The level of a line of the log.
use edge_guardian.Base.{
  ℕ, ◌≡◌, refl, ap, true, false, [], ◌∷◌, ◌++◌, Text, codes, starts_with, drop, All,
}
use edge_guardian.DevicePage.Monitoring.{is_word, word_prefix, level_here, level_of}

-- The text does not go on with a word.
abbrev pub IsBreak : Text → Type 0
IsBreak [] = Unit
IsBreak (c ∷ s) = is_word c ≡ false

word_prefix-append :
    (w rest : Text) → All (λ c. is_word c ≡ true) w → IsBreak rest → word_prefix (w ++ rest) ≡ w
unfolding word_prefix
word_prefix-append [] [] h b = refl
word_prefix-append [] (c ∷ rest) h b = rw b refl
word_prefix-append (c ∷ w) rest (h, hs) b = rw h (ap (◌∷◌ c) (word_prefix-append w rest hs b))

-- A line that begins with a level has this level.
pub level_of-level :
    (c : ℕ) (w rest : Text)
    → All (λ c. is_word c ≡ true) (c ∷ w)
    → IsBreak rest
    → level_of (codes "level=" ++ c ∷ w ++ rest) ≡ c ∷ w
unfolding level_of level_here starts_with drop
level_of-level c w rest h b = rw (word_prefix-append (c ∷ w) rest h b) refl
