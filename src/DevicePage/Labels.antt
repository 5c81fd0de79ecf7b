-- ===== src/DevicePage/Labels.antt =====
-- The labels that are edited are those of the device with the changes that were made.
use edge_guardian.Base.{
  ◌≡◌, ◌∙◌, refl, true, false, Option, none, some, List, [], ◌∷◌, Text, truthy, text_eq,
  if◌then◌else◌, lookup, insert, lookup-insert, lookup-remove, Bool-cases, inl, inr,
}
use edge_guardian.DevicePage.{PageState, remove_label, type_key, type_value, add_label}

-- What the user does on the card while it is open.
pub data Edit : Type 0 where
  removed : Text → Edit
  key_typed value_typed : Text → Edit
  added : Edit

pub step : PageState → Edit → PageState
step s (removed k) = remove_label k s
step s (key_typed t) = type_key t s
step s (value_typed t) = type_value t s
step s added = add_label s

pub run : PageState → List Edit → PageState
run s [] = s
run s (e ∷ edits) = run (step s e) edits

-- The label of one key, followed through the edits without a map: the key and the value in the two
-- fields, and what the key is bound to.
pub label_after : Text → Text → Text → Option Text → List Edit → Option Text
label_after k key value label [] = label
label_after k key value label (removed j ∷ edits) =
    label_after k key value (if text_eq j k then none else label) edits
label_after k key value label (key_typed t ∷ edits) = label_after k t value label edits
label_after k key value label (value_typed t ∷ edits) = label_after k key t label edits
label_after k key value label (added ∷ edits) =
    let bound = label_after k [] [] (if text_eq key k then some value else label) edits in
    let same = label_after k key value label edits in if truthy key then bound else same

add_label-insert :
    (s : PageState)
    → truthy s.new_label_key ≡ true
    → add_label s ≡ record s {
      local_labels = insert s.new_label_key s.new_label_value s.local_labels;
      new_label_key = [];
      new_label_value = [];
    }
unfolding add_label
add_label-insert s e = rw e refl

add_label_keyless : (s : PageState) → truthy s.new_label_key ≡ false → add_label s ≡ s
unfolding add_label
add_label_keyless s e = rw e refl

-- After any edits, each key has the label that its own history gives it: the last one that was added
-- under it and not removed since, or else the one it had.
pub lookup-run :
    (k : Text) (edits : List Edit) (s : PageState)
    → lookup k (run s edits).local_labels
      ≡ label_after k s.new_label_key s.new_label_value (lookup k s.local_labels) edits
unfolding run step label_after remove_label type_key type_value
lookup-run k [] s = refl
lookup-run k (removed j ∷ edits) s = rw (lookup-run k edits, lookup-remove) refl
lookup-run k (key_typed t ∷ edits) s = rw (lookup-run k edits) refl
lookup-run k (value_typed t ∷ edits) s = rw (lookup-run k edits) refl
lookup-run k (added ∷ edits) s = elim (Bool-cases (truthy s.new_label_key)) [
  | inl e ↦ lookup-run k edits (add_label s) ∙ rw (add_label-insert s e, lookup-insert, e) refl
  | inr e ↦ lookup-run k edits (add_label s) ∙ rw (add_label_keyless s e, e) refl
]
