-- ===== src/SettingsPage/Tables.antt =====
-- ui/app/(dashboard)/settings/page.tsx: the rows of its tables. The distance of a time to now is a
-- parameter, from date-fns, and so is `toUpperCase`.
use edge_guardian.Base.{
  Bool, Option, none, some, List, [], ◌∷◌, ◌++◌, map, Text, codes, text_eq, take, get_or,
  split_from,
}
use edge_guardian.Decimal.{to_string}
use edge_guardian.Api.Organizations.{
  OrgMember, EnrollmentToken, ApiKeyEntry, Invitation, Os, Arch, windows, linux, darwin, amd64,
  arm64, build_installer_url,
}
use edge_guardian.Layout.Sidebar.{initials}
use edge_guardian.SettingsPage.Requests.{can_remove}
use edge_guardian.Table.{TableView, skeleton, nothing, table_view}

-- `m.email?.split("@")[0]`
abbrev first_part : List Text → Text
first_part [] = []
first_part (p ∷ parts) = p

unfoldable pub mail_name : Option Text → Option Text
unfolding split_from
mail_name none = none
mail_name (some email) = some (first_part (split_from b'@' [] email))

-- `m.displayName ?? m.email?.split("@")[0] ?? d`
unfoldable pub member_name : Text → OrgMember → Text
unfolding mail_name
member_name d m = get_or m.display_name (get_or (mail_name m.email) d)

pub record MemberRow : Type 0 where
  pub avatar : Text
  pub name : Text
  pub email : Option Text
  pub role : Text
  pub is_highlighted : Bool
  pub joined : Text
  pub has_remove : Bool

pub record InvitationRow : Type 0 where
  pub email : Text
  pub role : Text
  pub created : Text

pub record Download : Type 0 where
  pub label : Text
  pub href : Text

pub record TokenRow : Type 0 where
  pub token : Text
  pub name : Text
  pub usage : Text
  pub expires : Text
  pub downloads : List Download

pub record KeyRow : Type 0 where
  pub name : Text
  pub prefix : Text
  pub last_used : Text
  pub created : Text

module _ (upper : Text → Text) (distance : Text → Text) where
  unfoldable pub member_row : OrgMember → MemberRow
  unfolding initials member_name can_remove text_eq
  member_row m = record {
    avatar = initials upper (some (member_name (codes "?") m));
    name = member_name (codes "Unknown") m;
    email = m.email;
    role = m.role;
    is_highlighted = text_eq m.role (codes "OWNER");
    joined = distance m.joined_at;
    has_remove = can_remove m;
  }

  unfoldable pub members_table : Bool → Option (List OrgMember) → TableView MemberRow
  unfolding table_view member_row
  members_table =
      table_view member_row (skeleton 3 4)
        (nothing (codes "No members") (codes "Invite team members."))

  abbrev pub invitation_row : Invitation → InvitationRow
  invitation_row i = record { email = i.email; role = i.role; created = distance i.created_at }

  -- The card is there only if there is an invitation.
  unfoldable pub invitations_card : Option (List Invitation) → Option (List InvitationRow)
  invitations_card none = none
  invitations_card (some []) = none
  invitations_card (some (i ∷ rest)) = some (map invitation_row (i ∷ rest))

  -- `t.expiresAt ? … : "Never"`
  unfoldable pub moment : Option Text → Text
  moment none = codes "Never"
  moment (some []) = codes "Never"
  moment (some (c ∷ s)) = distance (c ∷ s)

  -- `base` is `API_BASE_URL`.
  abbrev pub download : Text → Text → Text → Os → Arch → Download
  download base secret label os arch = record {
    label = label;
    href = build_installer_url base os arch secret;
  }

  unfoldable pub token_row : Text → EnrollmentToken → TokenRow
  unfolding moment build_installer_url take to_string
  token_row base t = record {
    token = take 16 t.token ++ codes "...";
    name = t.name;
    usage = to_string t.use_count ++ codes " / " ++ to_string t.max_uses;
    expires = moment t.expires_at;
    downloads =
        download base t.token (codes "Windows") windows amd64
        ∷ download base t.token (codes "Linux x64") linux amd64
        ∷ download base t.token (codes "Linux arm64") linux arm64
        ∷ download base t.token (codes "macOS Intel") darwin amd64
        ∷ download base t.token (codes "macOS Apple Silicon") darwin arm64
        ∷ [];
  }

  unfoldable pub tokens_table : Text → Bool → Option (List EnrollmentToken) → TableView TokenRow
  unfolding table_view token_row
  tokens_table base =
      table_view (token_row base) (skeleton 2 5)
        (nothing (codes "No tokens") (codes "Create a token to enroll devices."))

  unfoldable pub key_row : ApiKeyEntry → KeyRow
  unfolding moment
  key_row k = record {
    name = k.name;
    prefix = k.prefix ++ codes "...";
    last_used = moment k.last_used_at;
    created = distance k.created_at;
  }

  unfoldable pub keys_table : Bool → Option (List ApiKeyEntry) → TableView KeyRow
  unfolding table_view key_row
  keys_table =
      table_view key_row (skeleton 2 5)
        (nothing (codes "No API keys") (codes "Create a key for programmatic access."))

-- The roles that an invitation can give.
abbrev pub role_options : List (Text × Text)
role_options =
    (codes "ADMIN", codes "Admin — manage org, members, devices")
    ∷ (codes "OPERATOR", codes "Operator — operate devices, open terminals")
    ∷ (codes "VIEWER", codes "Viewer — read-only access")
    ∷ []

-- The question before a member is removed.
unfoldable pub remove_question : Option OrgMember → Text
unfolding member_name
remove_question none = codes "Remove this member from the organization?"
remove_question (some m) =
    codes "Remove " ++ member_name (codes "this member") m ++ codes " from the organization?"
