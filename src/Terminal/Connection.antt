-- ===== src/Terminal/Connection.antt =====
-- What the status of the page and the frames that are sent say of the connection.
use edge_guardian.Base.{Text, Option, some, none, ℕ, ◌≡◌, ◌≢◌, ◌⊎◌, true, false, List, [], ◌∷◌}
use edge_guardian.Terminal.{
  opened, finished, Socket, no_socket, socket_open, socket_closing, socket_closed, no_widget, Frame,
  text_frame, Terminal, resize_text, bytes_frame,
}
use edge_guardian.Terminal.Lifetime.{IsQuiet}

-- The first frame tells the size of the terminal.
abbrev pub IsSizedFirst : List Frame → Type 0
IsSizedFirst [] = ⊥
IsSizedFirst (frame ∷ _) = (rows : ℕ) × (cols : ℕ) × (frame ≡ text_frame (resize_text rows cols))

-- The text of the last frame of text.
unfoldable pub last_text : List Frame → Option Text
last_text [] = none
last_text (frame ∷ frames) =
    let later = last_text frames in
    elim later [
      | some x ↦ some x
      | none ↦ elim frame [ text_frame x ↦ some x | bytes_frame x ↦ none ]
    ]

abbrev pub IsUp : Socket → Type 0
IsUp w = (w ≡ socket_open) ⊎ (w ≡ socket_closing)

pub record IsWell (t : Terminal) : Type 0 where
  pub waiting : (t.stage ≡ finished) ⊎ (t.socket ≡ no_socket)
  pub over : (t.disposed ≡ false) ⊎ IsQuiet t.socket
  pub greeted :
      ((t.sent ≡ []) × (t.socket ≢ socket_open))
      ⊎ (IsSizedFirst t.sent × ((t.socket ≡ socket_closed) ⊎ IsUp t.socket))
  pub told : (t.socket ≢ socket_open) ⊎ (last_text t.sent ≡ some (resize_text t.rows t.cols))
  pub shown : (t.widget ≡ no_widget) ⊎ ((t.status ≢ opened) ⊎ ((t.disposed ≡ true) ⊎ IsUp t.socket))
