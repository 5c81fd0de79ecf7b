-- ===== src/Tests/Pages.antt =====
-- ui/app/(dashboard)/devices/page.tsx and ui/lib/hooks/use-polling-history.ts at concrete inputs.
use Prim.Native.Nat.{compare}
use mathlib.Core.List.{Perm}
use edge_guardian.Base.{
  ◌↔◌, any, all, ℕ, ◌+◌, ◌≤◌, ◌≡◌, refl, Bool, true, false, ◌==◌, if◌then◌else◌, Option, none, some,
  List, [], ◌∷◌, ◌++◌, Text, codes, text_eq, arith, length, filter,
}
use edge_guardian.Http.{api_error, Result, ok, err}
use edge_guardian.Api.Devices.{Device}
use edge_guardian.History.{get}
use edge_guardian.History.Window.{last, kept, get-run}
use edge_guardian.History.Window
use edge_guardian.Sorting.{Comparison, IsConsistent}
use edge_guardian.Sorting.Laws.{IsSorted}
use edge_guardian.DevicesPage.{PageState, initial, filtered, by_hostname, by_state, member, asc}
use edge_guardian.DevicesPage.View.{matches, IsListed, in_order, filtered-perm-IsSorted}
use edge_guardian.DevicesPage.Steps.Clicks.{on_rows, is_chosen, member-run}
use edge_guardian.DevicesPage.Steps.{
  row_checked, sort_clicked, deletion_succeeded, Event, page_size_chosen, next_clicked,
  header_checked, IsSound, run, run-IsSound,
}
use edge_guardian.DevicesPage.Deletion.{
  delete_all, Ending, Deleted, nothing, delete_all-Ending, confirm_delete, confirm_delete-stopped,
  message,
}

abbrev device : Text → Device
device id = record {
  device_id = id;
  hostname = id;
  architecture = codes "arm64";
  os = codes "linux";
  agent_version = codes "1";
  labels = [];
  state = codes "ONLINE";
  registered_at = [];
  last_heartbeat = none;
  auto_update = none;
  status = none;
}

abbrev devices : List Device
devices = device (codes "pi-22") ∷ device (codes "pi-1") ∷ []

-- A collation that looks at the length alone, and a case conversion that changes nothing.
abbrev by_length : Comparison Text
by_length a b = compare (length a) (length b)

abbrev lower : Text → Text
lower s = s

by_length-IsConsistent : IsConsistent by_length
by_length-IsConsistent = record {
  flips = λ a b. ground arith;
  transitive = λ a b c h k. ground arith;
}

filtered-perm-IsSorted_example :
    ((d : Device) → (matches lower by_length initial d ≡ true) ↔ IsListed lower by_length initial d)
    × Perm
        (filtered lower by_length initial devices)
        (filter (matches lower by_length initial) devices)
    × IsSorted (in_order lower by_length by_hostname asc) (filtered lower by_length initial devices)
filtered-perm-IsSorted_example =
    filtered-perm-IsSorted lower by_length by_length-IsConsistent initial devices

abbrev events : List Event
events = page_size_chosen 25 ∷ next_clicked ∷ header_checked ∷ next_clicked ∷ []

run-IsSound_example : IsSound lower by_length devices (run lower by_length devices initial events)
unfolding any
run-IsSound_example = run-IsSound lower by_length devices events (refl, (tt, (tt, (tt, tt))))

-- Two boxes with a sort between them, a deletion, and one of the boxes again.
abbrev clicks : List Event
clicks =
    row_checked (codes "pi-1")
    ∷ sort_clicked by_state
    ∷ row_checked (codes "pi-22")
    ∷ deletion_succeeded
    ∷ row_checked (codes "pi-22")
    ∷ []

member-run_example :
    member (codes "pi-22") (run lower by_length devices initial clicks).selected
    ≡ is_chosen (codes "pi-22") clicks (member (codes "pi-22") [])
unfolding all on_rows
member-run_example = member-run lower by_length devices (codes "pi-22") clicks initial refl

-- A server that counts its deletions and knows only one device.
abbrev remove : Text → ℕ → ℕ × Result (Unit {0})
remove id n =
    if text_eq id (codes "pi-1") then (n + 1, ok tt) else (n, err (api_error 404 (codes "gone")))

delete_all-Ending_example :
    Ending remove
      (codes "pi-1" ∷ codes "pi-2" ∷ [])
      0
      (delete_all remove (codes "pi-1" ∷ codes "pi-2" ∷ []) 0)
delete_all-Ending_example = delete_all-Ending remove (codes "pi-1" ∷ codes "pi-2" ∷ []) 0

abbrev chosen : PageState
chosen = record initial { selected = codes "pi-1" ∷ codes "pi-2" ∷ []; delete_confirm_open = true }

first-Deleted : Deleted remove (codes "pi-1" ∷ []) 0 1
unfolding text_eq
first-Deleted = Deleted.next (codes "pi-1") 0 refl (nothing 1)

confirm_delete-stopped_example :
    confirm_delete remove (codes "network") (codes "syntax") chosen 0 ≡ (
      1,
      (
        record chosen { delete_confirm_open = false },
        record {
          error_toast = true;
          toast =
              codes "Failed to delete: "
              ++ message (codes "network") (codes "syntax") (api_error 404 (codes "gone"));
          invalidated = false;
        },
      ),
    )
confirm_delete-stopped_example =
    confirm_delete-stopped remove (codes "network") (codes "syntax") chosen 0 1 1
      (codes "pi-1" ∷ []) [] (codes "pi-2") (api_error 404 (codes "gone")) refl first-Deleted
      (unfold text_eq in refl)

abbrev is_odd_one : ℕ → Bool
is_odd_one v = v == 99

abbrev pushed : List (Text × Option ℕ)
pushed =
    (codes "cpu", some 1)
    ∷ (codes "mem", some 5)
    ∷ (codes "cpu", some 99)
    ∷ (codes "cpu", some 2)
    ∷ (codes "cpu", none)
    ∷ (codes "cpu", some 3)
    ∷ []

get-run_example :
    (get is_odd_one (codes "cpu") (Window.run is_odd_one 2 pushed [])
      ≡ last 2 (kept is_odd_one (codes "cpu") pushed))
    × (length (get is_odd_one (codes "cpu") (Window.run is_odd_one 2 pushed [])) ≤ 2)
get-run_example = get-run is_odd_one 2 (codes "cpu") pushed
