-- ===== src/Layout/ErrorBoundary.antt =====
-- ui/components/error-boundary.tsx: what is drawn after a component below it has thrown.
use edge_guardian.Base.{Bool, true, false, Option, none, some, [], ◌∷◌, Text, codes}

-- The state; of an error only the message is read.
pub record ErrorBoundaryState : Type 0 where
  pub has_error : Bool
  pub error : Option Text

abbrev pub no_error : ErrorBoundaryState
no_error = record { has_error = false; error = none }

-- `getDerivedStateFromError`
unfoldable pub derived : Text → ErrorBoundaryState
derived message = record { has_error = true; error = some message }

pub data Drawn {ℓ} (C : Type ℓ) : Type ℓ where
  drawn : C → Drawn C
  error_card : (message : Text) → Drawn C

-- `this.state.error?.message || "An unexpected error occurred."`
unfoldable pub message_of : Option Text → Text
message_of none = codes "An unexpected error occurred."
message_of (some []) = codes "An unexpected error occurred."
message_of (some (c ∷ s)) = c ∷ s

unfoldable pub render {ℓ} : {C : Type ℓ} → Option C → C → ErrorBoundaryState → Drawn C
unfolding message_of
render fallback children s = elim (s.has_error) [
  | false ↦ drawn children
  | true ↦ elim fallback [ none ↦ error_card (message_of s.error) | some f ↦ drawn f ]
]

-- `onClick` of the button to try again
unfoldable pub try_again : ErrorBoundaryState → ErrorBoundaryState
try_again s = no_error
