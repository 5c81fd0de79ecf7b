-- ===== src/Organization/Choice.antt =====
-- The choice is one of the user's organizations, and outlives a reload of the page.
use edge_guardian.Base.{
  ◌∙◌, ap, sym, ℕ, ◌≡◌, ◌≢◌, ◌⊎◌, inl, inr, refl, true, Option, none, some, List, [], ◌∷◌, Text,
  ◌==◌, find, lookup, lookup-insert_self, arith, Bool-cases, Option-cases,
}
use edge_guardian.Decimal.{to_string, parse_int}
use edge_guardian.Decimal.RoundTrip.{parse_int-to_string, to_string-ne-nil}
use edge_guardian.Api.Organizations.{MeResponse, MeOrganization}
use edge_guardian.Organization.{
  OrganizationState, storage_key, stored_id, has_id, choose, unset, initialize, set_org_id,
  current_org,
}

-- The user is a member of the organization with this id.
abbrev pub IsMember : ℕ → List MeOrganization → Type 0
IsMember id [] = ⊥
IsMember id (o ∷ os) = (o.id ≡ id) ⊎ IsMember id os

pub find_member :
    (id : ℕ) (os : List MeOrganization)
    → IsMember id os
    → (o : MeOrganization) × (find (has_id (some id)) os ≡ some o) × (o.id ≡ id)
unfolding find
find_member id [] h = elim h [ ]
find_member id (o ∷ os) h = elim (Bool-cases (o.id == id)) [
  | inl e ↦ (o, rw e refl, ground arith)
  | inr e ↦ let (p, f, q) = find_member id os (ground arith) in (p, rw e f, q)
]

found-IsMember :
    (id : Option ℕ) (os : List MeOrganization) (o : MeOrganization)
    → find (has_id id) os ≡ some o
    → IsMember o.id os
unfolding find
found-IsMember id [] o h = cc
found-IsMember id (p ∷ os) o h = elim (Bool-cases (has_id id p)) [
  | inl e ↦ inl (ground arith)
  | inr e ↦ inr (found-IsMember id os o (ground arith))
]

choose-IsMember :
    (id : Option ℕ) (os : List MeOrganization)
    → os ≢ []
    → (n : ℕ) × (choose os (find (has_id id) os) ≡ some n) × IsMember n os
unfolding choose
choose-IsMember id [] h = absurd (h refl)
choose-IsMember id (o ∷ os) h = elim (Option-cases (find (has_id id) (o ∷ os))) [
  | inl e ↦ (o.id, rw e refl, inl refl)
  | inr (p, e) ↦ (p.id, rw e refl, found-IsMember id (o ∷ os) p e)
]

initialize-org_id :
    (s : OrganizationState) (me : MeResponse)
    → s.me ≡ some me
    → unset s.org_id ≡ true
    → (initialize s).org_id
      ≡ choose me.organizations
          (find (has_id (stored_id (lookup storage_key s.storage))) me.organizations)
unfolding initialize
initialize-org_id s me e u = ground arith

initialize-me : (s : OrganizationState) → (initialize s).me ≡ s.me
unfolding initialize
initialize-me s = ground arith

-- Once the user's organizations have come, and there is one, and no organization has been chosen yet,
-- the effect makes one of them the current organization, whatever the local storage holds.
pub initialize-current_org :
    (s : OrganizationState) (me : MeResponse)
    → s.me ≡ some me
    → s.org_id ≡ none
    → me.organizations ≢ []
    → (o : MeOrganization) × (current_org (initialize s) ≡ some o)
      × ((initialize s).org_id ≡ some o.id)
      × IsMember o.id me.organizations
unfolding current_org
initialize-current_org s me e u h =
    let (n, c, m) = choose-IsMember (stored_id (lookup storage_key s.storage)) me.organizations h in
    let (o, f, q) = find_member n me.organizations m in
    let chosen : (initialize s).org_id ≡ some n = initialize-org_id s me e (rw u refl) ∙ c in
    (o, rw (initialize-me, e, chosen) f, chosen ∙ ap some (sym q), rw q m)

stored_id_of_ne : (t : Text) → t ≢ [] → stored_id (some t) ≡ parse_int t
unfolding stored_id
stored_id_of_ne [] h = absurd (h refl)
stored_id_of_ne (c ∷ t) h = refl

stored_id-to_string :
    (id : ℕ) (s later : OrganizationState)
    → later.storage ≡ (set_org_id id s).storage
    → stored_id (lookup storage_key later.storage) ≡ some id
unfolding set_org_id
stored_id-to_string id s later e =
    ap (λ m. stored_id (lookup storage_key m)) e
    ∙ ap stored_id (lookup-insert_self storage_key (to_string id) s.storage)
    ∙ stored_id_of_ne (to_string id) (to_string-ne-nil id)
    ∙ parse_int-to_string id

-- The choice outlives the page: if the user picks an organization, and any later page starts with
-- the same local storage and finds the user still a member, the effect restores that organization
-- and it is the current one.
pub initialize-set_org_id :
    (id : ℕ) (s later : OrganizationState) (me : MeResponse)
    → later.storage ≡ (set_org_id id s).storage
    → later.me ≡ some me
    → later.org_id ≡ none
    → IsMember id me.organizations
    → ((initialize later).org_id ≡ some id)
      × ((o : MeOrganization) × (current_org (initialize later) ≡ some o) × (o.id ≡ id))
initialize-set_org_id id s later me es em eo h =
    let (o, f, q) = find_member id me.organizations h in
    let stored = stored_id-to_string id s later es in
    let chosen : (initialize later).org_id ≡ some id =
      initialize-org_id later me em (rw eo refl) ∙ rw (stored, f) (unfold choose in ap some q) in
    (chosen, (o, unfold current_org in rw (initialize-me, em, chosen) f, q))
