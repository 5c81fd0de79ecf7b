-- ===== src/Layout/OrgSwitcher/Choice.antt =====
-- What is picked is what is current.
use edge_guardian.Base.{ℕ, ◌≡◌, ◌≢◌, refl, true, some, [], ◌∷◌, Text, all, All, truthy, arith}
use edge_guardian.Decimal.{to_string, is_digit}
use edge_guardian.Decimal.RoundTrip.{parse_int-to_string, to_string-ne-nil, to_string-All}
use edge_guardian.Api.Organizations.{MeResponse, MeOrganization}
use edge_guardian.Organization.{OrganizationState, set_org_id, current_org}
use edge_guardian.Organization.Choice.{IsMember, find_member}
use edge_guardian.Layout.OrgSwitcher.{to_number, choose_value, value}

all_digits : (s : Text) → All (λ c. is_digit c ≡ true) s → all is_digit s ≡ true
unfolding all
all_digits [] h = refl
all_digits (c ∷ s) (h, hs) = rw (h, all_digits s hs) refl

truthy_ne : (s : Text) → s ≢ [] → truthy s ≡ true
truthy_ne [] h = absurd (h refl)
truthy_ne (c ∷ s) h = refl

to_number-to_string : (n : ℕ) → to_number (to_string n) ≡ some n
unfolding to_number
to_number-to_string n =
    rw (truthy_ne (to_string n) (to_string-ne-nil n), all_digits (to_string n) (to_string-All n))
      (parse_int-to_string n)

choose_value_lem :
    (id : ℕ) (s : OrganizationState) → choose_value (to_string id) s ≡ set_org_id id s
unfolding choose_value
choose_value_lem id s = rw (choose_value, to_number-to_string id) refl

value-set_org_id :
    (id : ℕ) (s : OrganizationState) → id ≢ 0 → value (set_org_id id s) ≡ some (to_string id)
unfolding value set_org_id
value-set_org_id id s h = ground arith

-- After the user has picked the entry of an organization, which is none with the id 0, the list shows
-- this entry, and the current organization is one with that id.
pub choose_value-to_string :
    (id : ℕ) (s : OrganizationState) (me : MeResponse)
    → id ≢ 0
    → s.me ≡ some me
    → IsMember id me.organizations
    → (value (choose_value (to_string id) s) ≡ some (to_string id))
      × ((o : MeOrganization) × (current_org (choose_value (to_string id) s) ≡ some o)
          × (o.id ≡ id))
unfolding set_org_id current_org
choose_value-to_string id s me h e m =
    let (o, f, q) = find_member id me.organizations m in
    rw (choose_value_lem id s) (value-set_org_id id s h, (o, rw e f, q))
