-- ===== src/Layout/Sidebar/Storage.antt =====
-- The bar is found again as it was left.
use edge_guardian.Base.{
  List, Text, ◌≡◌, refl, Bool, true, false, not, lookup, lookup-insert_self, text_eq, some,
  Bool-cases, inl, inr,
}
use edge_guardian.Layout.Sidebar.{
  SidebarState, fresh, mount, toggle_collapsed, collapsed_key, bool_text, is_true,
}

is_true-bool_text : (b : Bool) → is_true (some (bool_text b)) ≡ b
unfolding text_eq
is_true-bool_text true = refl
is_true-bool_text false = refl

mount_lem :
    (storage : List (Text × Text))
    → (mount (fresh storage)).collapsed ≡ is_true (lookup collapsed_key storage)
unfolding mount
mount_lem storage = elim (Bool-cases (is_true (lookup collapsed_key storage))) [
  | inl e ↦ rw e refl
  | inr e ↦ rw e refl
]

-- A page that is loaded after the bar was collapsed or expanded, with the same local storage, shows
-- the bar as it was left.
pub mount-toggle_collapsed :
    (s : SidebarState)
    → (mount (fresh (toggle_collapsed s).storage)).collapsed ≡ (toggle_collapsed s).collapsed
unfolding toggle_collapsed
mount-toggle_collapsed s =
    rw
      (
        mount_lem (toggle_collapsed s).storage,
        lookup-insert_self collapsed_key (bool_text (not s.collapsed)) s.storage,
      )
      (is_true-bool_text (not s.collapsed))
