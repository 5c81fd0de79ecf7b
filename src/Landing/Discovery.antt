-- ===== src/Landing/Discovery.antt =====
-- ui/components/landing/discovery-section.tsx: the devices around the controller, and what of the
-- drawing depends on whether the section has come into view.
use edge_guardian.Base.{
  ℕ, suc, ◌+◌, ◌-◌, ◌*◌, Bool, List, [], ◌∷◌, map, Text, codes, ltb, if◌then◌else◌,
}
use edge_guardian.Landing.InView.{InView}

pub record Point : Type 0 where
  pub x : ℕ
  pub y : ℕ

pub record Node : Type 0 where
  pub at : Point
  pub name : Text
  pub delay : ℕ
  pub status : Text
  pub color : Text

abbrev pub hub : Point
hub = record { x = 400; y = 250 }

abbrev pub node : (x y : ℕ) → Text → ℕ → Text → Text → Node
node x y name delay status color = record {
  at = record { x = x; y = y };
  name = name;
  delay = delay;
  status = status;
  color = color;
}

abbrev pub nodes : List Node
nodes =
    node 140 70 (codes "rpi-gateway-01") 0 (codes "Connected") (codes "#10b981")
    ∷ node 675 75 (codes "jetson-ai-07") 300 (codes "Syncing") (codes "#06b6d4")
    ∷ node 670 300 (codes "esp32-temp-04") 600 (codes "Connected") (codes "#10b981")
    ∷ node 620 440 (codes "nuc-edge-05") 900 (codes "Connected") (codes "#10b981")
    ∷ node 170 435 (codes "rpi-sensor-02") 1200 (codes "Discovered") (codes "#f59e0b")
    ∷ node 135 295 (codes "android-field") 1500 (codes "Syncing") (codes "#06b6d4")
    ∷ []

-- A line from a device to the controller: how much of it is not drawn yet, and when it is drawn.
pub record Link : Type 0 where
  pub from : Point
  pub to : Point
  pub offset : ℕ
  pub starts : ℕ

-- `Math.hypot(hub.x - n.x, hub.y - n.y)` is a parameter, in units of any size.
unfoldable pub draw_link : (Point → Point → ℕ) → Bool → Node → Link
draw_link hypot active n = record {
  from = n.at;
  to = hub;
  offset = if active then 0 else hypot hub n.at;
  starts = n.delay + 400;
}

pub data Anchor : Type 0 where
  end start : Anchor

-- The text of a device, and when its parts appear: the ring, the dot, the name and the status.
pub record Label : Type 0 where
  pub place : ℕ
  pub anchor : Anchor
  pub name : Text
  pub status : Text
  pub opacity : ℕ
  pub ring_at : ℕ
  pub dot_at : ℕ
  pub name_at : ℕ
  pub status_at : ℕ

unfoldable pub is_left : Node → Bool
is_left n = ltb n.at.x hub.x

unfoldable pub draw_label : Bool → Node → Label
unfolding is_left
draw_label active n = record {
  place = if is_left n then n.at.x - 18 else n.at.x + 18;
  anchor = if is_left n then end else start;
  name = n.name;
  status = n.status;
  opacity = if active then 1 else 0;
  ring_at = n.delay + 200;
  dot_at = n.delay + 400;
  name_at = n.delay + 600;
  status_at = n.delay + 1400;
}

-- A dot that travels from a device to the controller; its time is in tenths of a second.
pub record Pulse : Type 0 where
  pub from : Point
  pub to : Point
  pub duration : ℕ

unfoldable pub pulses_from : ℕ → List Node → List Pulse
pulses_from i [] = []
pulses_from i (n ∷ ns) =
    record { from = n.at; to = hub; duration = 20 + i * 3 } ∷ pulses_from (suc i) ns

-- The drawing; the rings and the dots are there only once the section is in view.
pub record Drawing : Type 0 where
  pub links : List Link
  pub rings : ℕ
  pub labels : List Label
  pub pulses : List Pulse

unfoldable pub draw : (Point → Point → ℕ) → InView → Drawing
unfolding draw_link draw_label pulses_from
draw hypot s = record {
  links = map (draw_link hypot s.active) nodes;
  rings = if s.active then 2 else 0;
  labels = map (draw_label s.active) nodes;
  pulses = if s.active then pulses_from 0 nodes else [];
}
