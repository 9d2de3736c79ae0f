-- ===== src/Model/User.antt =====
-- src/model/user.rs: the roles of users and who may change them.
use rbph_website_backend.Prelude.{Option, none, some, Bool, true, false, ◌&&◌, ◌||◌, if◌then◌else◌}
use rbph_website_backend.Prelude.{ℤ, pos, eqℤ, ltℤ}

pub data RbUserRole : Type 0 where
  banned : RbUserRole
  user : RbUserRole
  moderator : RbUserRole
  admin : RbUserRole
  root : RbUserRole
  invalid : ℤ → RbUserRole

unfoldable pub role_to_i16 : RbUserRole → ℤ
role_to_i16 banned = pos 0
role_to_i16 user = pos 1
role_to_i16 moderator = pos 2
role_to_i16 admin = pos 3
role_to_i16 root = pos 4
role_to_i16 (invalid n) = n

unfoldable pub is_valid : RbUserRole → Bool
is_valid (invalid _) = false
is_valid _ = true

unfoldable pub is_moderator : RbUserRole → Bool
is_moderator moderator = true
is_moderator admin = true
is_moderator root = true
is_moderator _ = false

unfoldable pub is_admin : RbUserRole → Bool
is_admin admin = true
is_admin root = true
is_admin _ = false

unfoldable pub is_root : RbUserRole → Bool
is_root root = true
is_root _ = false

-- The derived `PartialEq`.
unfoldable pub role_eq : RbUserRole → RbUserRole → Bool
unfolding eqℤ
role_eq banned banned = true
role_eq user user = true
role_eq moderator moderator = true
role_eq admin admin = true
role_eq root root = true
role_eq (invalid m) (invalid n) = eqℤ m n
role_eq _ _ = false

-- `<` by `partial_cmp`: roles that are not valid are not comparable.
unfoldable pub role_lt : RbUserRole → RbUserRole → Bool
unfolding is_valid role_to_i16 ltℤ
role_lt lhs rhs =
    if is_valid lhs && is_valid rhs then ltℤ (role_to_i16 lhs) (role_to_i16 rhs) else false

-- `current.is_none_or(|role| role < Self::Admin)`.
abbrev pub below_admin : Option RbUserRole → Bool
below_admin none = true
below_admin (some role) = role_lt role admin

abbrev pub is_current : Option RbUserRole → RbUserRole → Bool
is_current none _ = false
is_current (some role) other = role_eq role other

unfoldable pub can_change_role : RbUserRole → Option RbUserRole → RbUserRole → Bool
unfolding role_eq is_root role_lt
can_change_role self current requested =
    if is_current current requested
    then true
    else if is_current current root || role_eq requested root
    then false
    else is_root self || (below_admin current && role_lt requested admin)

unfoldable pub can_manage_credentials : RbUserRole → RbUserRole → Bool
unfolding role_lt
can_manage_credentials self target = role_lt target self
