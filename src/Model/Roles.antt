-- ===== src/Model/Roles.antt =====
-- src/model/user.rs: what `can_change_role` protects.
use rbph_website_backend.Prelude.{some, true, false, not, ◌&&◌, ◌||◌, ◌≡◌, refl, arith}
use rbph_website_backend.Model.User.{
  RbUserRole, banned, user, moderator, admin, root, invalid, is_admin, is_root, role_eq, role_lt,
  can_change_role,
}

role_lt-below_admin : (role : RbUserRole) → role_lt role admin ≡ true → is_admin role ≡ false
unfolding role_lt is_admin
role_lt-below_admin banned h = refl
role_lt-below_admin user h = refl
role_lt-below_admin moderator h = refl
role_lt-below_admin admin h = cc h
role_lt-below_admin root h = cc h
role_lt-below_admin (invalid n) h = refl

-- A user may change a role to another one only where neither of them is root, and, unless the user
-- is root, neither is that of an administrator.
pub can_change_role-protected :
    (self current requested : RbUserRole)
    → can_change_role self (some current) requested ≡ true
    → role_eq current requested ≡ false
    → (role_eq current root ≡ false)
      × (role_eq requested root ≡ false)
      × (is_root self || (not (is_admin current) && not (is_admin requested)) ≡ true)
unfolding can_change_role
can_change_role-protected self current requested h ne =
    ground (arith, role_lt-below_admin current, role_lt-below_admin requested)
