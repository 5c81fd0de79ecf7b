-- ===== src/Terminal/Roles.antt =====
-- The two pages agree on who may open a shell.
use edge_guardian.Base.{
  inl, inr, Bool-cases, ◌≡◌, Option, Text, arith, text_eq, text_eq_iff, codes, refl, lookup, any,
  leb, subst, [], ◌∷◌, true,
}
use edge_guardian.Api.Organizations.{MeOrganization}
use edge_guardian.Terminal.{allowed, can_open_shell, role_of, rank_of}

rank_of-viewer :
    (role : Text)
    → text_eq (codes "viewer") role ≡ true
    → any (λ r. text_eq r role) (codes "operator" ∷ codes "admin" ∷ codes "owner" ∷ [])
      ≡ leb 2 (rank_of role)
unfolding lookup any text_eq
rank_of-viewer role e =
    subst
      (λ (role : Text).
        any (λ r. text_eq r role) (codes "operator" ∷ codes "admin" ∷ codes "owner" ∷ [])
        ≡ leb 2 (rank_of role))
      ((text_eq_iff (codes "viewer") role).0 e) refl

rank_of-shell :
    (role : Text)
    → any (λ r. text_eq r role) (codes "operator" ∷ codes "admin" ∷ codes "owner" ∷ [])
      ≡ leb 2 (rank_of role)
unfolding lookup any
rank_of-shell role = elim (Bool-cases (text_eq (codes "viewer") role)) [
  | inl e ↦ rank_of-viewer role e
  | inr e ↦ ground arith
]

-- The page of a device offers the terminal exactly to those whom the terminal's page lets in.
pub can_open_shell-allowed :
    (lower : Text → Text) (org : Option MeOrganization)
    → can_open_shell lower org ≡ allowed lower org
unfolding can_open_shell allowed lookup text_eq
can_open_shell-allowed lower org = rank_of-shell (role_of lower org)
