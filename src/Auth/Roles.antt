-- ===== src/Auth/Roles.antt =====
-- The permission checks of frontend/lib/auth.ts, over the fields of a user that they read.
use pfv.Common.{
  Bool, true, false, ◌||◌, Option, none, some, List, [], ◌∷◌, ◌≡◌, ◌⊎◌, inl, inr, ◌↔◌, arith, any,
  ◌&&◌, not, Bool-cases, Option-cases,
}
use pfv.Common.Text.{Text, text_eq, text_eq_iff}

pub data Role : Type 0 where
  owner admin member : Role

-- The fields of `User` (frontend/lib/types.ts) that permissions depend on; `permissions` is `none`
-- where it is absent or no array.
pub record User : Type 0 where
  pub role : Role
  pub is_superadmin : Bool
  pub permissions : Option (List Text)

abbrev is_role_owner : Role → Bool
is_role_owner owner = true
is_role_owner _ = false

abbrev is_role_admin : Role → Bool
is_role_admin admin = true
is_role_admin _ = false

unfoldable pub is_admin : User → Bool
is_admin user = is_role_owner user.role || is_role_admin user.role || user.is_superadmin

unfoldable pub is_owner : User → Bool
is_owner user = is_role_owner user.role || user.is_superadmin

unfoldable pub is_superadmin : User → Bool
is_superadmin user = user.is_superadmin

abbrev includes_permission : Option (List Text) → Text → Bool
includes_permission none permission = false
includes_permission (some ps) permission = any (λ p. text_eq p permission) ps

abbrev granted_to : Bool → User → Text → Bool
granted_to true user permission = true
granted_to false user permission = includes_permission user.permissions permission

unfoldable pub has_platform_permission : Option User → Text → Bool
has_platform_permission none permission = false
has_platform_permission (some user) permission = granted_to user.is_superadmin user permission

-- Membership in a list of texts.
abbrev pub In : Text → List Text → Type 0
In p [] = ⊥
In p (q ∷ qs) = (q ≡ p) ⊎ In p qs

any_iff-In : (p : Text) (qs : List Text) → (any (λ q. text_eq q p) qs ≡ true) ↔ In p qs
any_iff-In p [] = ((λ h. cc), λ h. absurd h)
any_iff-In p (q ∷ qs) = ground (arith, text_eq_iff q p, any_iff-In p qs)

-- A permission is held exactly by a superadmin and by a user whose list names it; an owner or an
-- admin of an organisation holds none by that role.
pub has_platform_permission_iff :
    (user : User) (permission : Text)
    → (has_platform_permission (some user) permission ≡ true) ↔ (
        (user.is_superadmin ≡ true)
        ⊎ ((ps : List Text) × (user.permissions ≡ some ps) × In permission ps))
unfolding has_platform_permission
has_platform_permission_iff user permission = (to, from)
  where
    to :
        has_platform_permission (some user) permission ≡ true
        → (user.is_superadmin ≡ true)
          ⊎ ((ps : List Text) × (user.permissions ≡ some ps) × In permission ps)
    to h = elim (Bool-cases user.is_superadmin) [
      | inl s ↦ inl s
      | inr s ↦ elim (Option-cases user.permissions) [
        | inl e ↦ absurd (ground arith)
        | inr (ps, e) ↦ inr (ps, e, (any_iff-In permission ps).0 (ground arith))
      ]
    ]

    from :
        (user.is_superadmin ≡ true)
          ⊎ ((ps : List Text) × (user.permissions ≡ some ps) × In permission ps)
        → has_platform_permission (some user) permission ≡ true
    from (inl s) = rw s
    from (inr (ps, e, m)) = ground (arith, (any_iff-In permission ps).1 m)

-- A superadmin is an owner, and an owner is an admin, whatever the roles.
pub roles_nested :
    (user : User)
    → ((is_superadmin user && not (is_owner user)) ≡ false)
      × ((is_owner user && not (is_admin user)) ≡ false)
unfolding is_superadmin is_owner is_admin
roles_nested user = ground arith
