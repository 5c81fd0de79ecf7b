-- ===== src/LogsPage/Choices.antt =====
-- ui/app/(dashboard)/devices/[id]/logs/page.tsx: the two selects with their items, and what the user
-- does with the filters.
use edge_guardian.Base.{ℕ, none, some, List, [], ◌∷◌, Text, codes, get_elem?}
use edge_guardian.LogsPage.{PageState, set_search, set_level, set_time_range}

-- The items of a select, each with its value and its text.
abbrev pub level_items : List (Text × Text)
level_items =
    (codes "all", codes "All Levels")
    ∷ (codes "ERROR", codes "ERROR")
    ∷ (codes "WARN", codes "WARN")
    ∷ (codes "INFO", codes "INFO")
    ∷ (codes "DEBUG", codes "DEBUG")
    ∷ []

abbrev pub range_items : List (Text × Text)
range_items =
    (codes "15m", codes "15 min")
    ∷ (codes "1h", codes "1 hour")
    ∷ (codes "6h", codes "6 hours")
    ∷ (codes "24h", codes "24 hours")
    ∷ (codes "7d", codes "7 days")
    ∷ []

-- What a select does when the item at a place is picked: it hands the value of the item on. There
-- is nothing to pick behind the last item.
unfoldable pub pick : {S : Type 0} → List (Text × Text) → (Text → S → S) → ℕ → S → S
unfolding get_elem?
pick items set i s = elim (get_elem? items i) [ none ↦ s | some item ↦ set item.0 s ]

pub data Choice : Type 0 where
  searched : Text → Choice
  level_picked range_picked : ℕ → Choice

unfoldable pub make_choice : Choice → PageState → PageState
unfolding set_search set_level set_time_range pick
make_choice (searched text) s = set_search text s
make_choice (level_picked i) s = pick level_items set_level i s
make_choice (range_picked i) s = pick range_items set_time_range i s

unfoldable pub after_choices : List Choice → PageState → PageState
unfolding make_choice
after_choices [] s = s
after_choices (c ∷ cs) s = after_choices cs (make_choice c s)
