-- ===== src/Layout/UserMenu.antt =====
-- ui/components/user-menu.tsx: the menu of the user who is signed in, and signing out.
use edge_guardian.Base.{Option, none, some, Text, codes, get_or}
use edge_guardian.Layout.Sidebar.{initials}

pub record User : Type 0 where
  pub name : Option Text
  pub email : Option Text

pub record Menu : Type 0 where
  pub avatar : Text
  pub name : Option Text
  pub email : Option Text

-- None if nothing is drawn; `upper` is `toUpperCase`.
unfoldable pub user_menu : (Text → Text) → Option User → Option Menu
unfolding initials
user_menu upper none = none
user_menu upper (some user) =
    some record { avatar = initials upper user.name; name = user.name; email = user.email }

-- The page that follows `signOut`: `logoutUrl ?? "/auth/login"`.
unfoldable pub sign_out_target : Option Text → Text
sign_out_target logout_url = get_or logout_url (codes "/auth/login")
