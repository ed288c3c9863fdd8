-- ===== src/Examples/Roles.antt =====
-- The theorems on administrators at concrete calls.
use our_companion_network.Base.{ℕ, ◌≤◌, ◌≡◌, refl, [], ◌∷◌, some, true, arith, find_first, ◌==◌}
use our_companion_network.Social.{active}
use our_companion_network.AdminRole.{
  Account, Roles, superadmin, user, AdminRoleChangeInput, active_admins, is_active_admin, set_role,
  demote, promote, require_active_actor, require_actor_or_bootstrap, promote_admin, demote_admin,
}
use our_companion_network.AdminRole.Succession.{demote_leaves_admin, promote_needs_admin}

abbrev two_admins : Roles
two_admins = record {
  accounts =
      record { id = 1; uid = 101; role = superadmin; account_status = active }
      ∷ record { id = 2; uid = 102; role = superadmin; account_status = active }
      ∷ record { id = 3; uid = 103; role = user; account_status = active }
      ∷ [];
  audit = [];
}

abbrev change : ℕ → AdminRoleChangeInput
change uid = record { target_uid = uid; reason_length = 20; actor_user_id = some 1 }

-- The first administrator steps down.
abbrev stepped_down : Roles
stepped_down = record {
  accounts = set_role user 1 two_admins.accounts;
  audit = record { admin_user_id = 1; action = demote_admin; target_id = 1 } ∷ [];
}

demote_leaves_admin_example : 1 ≤ active_admins stepped_down
unfolding demote require_active_actor
demote_leaves_admin_example =
    demote_leaves_admin (change 101) two_admins stepped_down true (refl, (refl, (refl, tt))) refl

abbrev three_admins : Roles
three_admins = record {
  accounts = set_role superadmin 3 two_admins.accounts;
  audit = record { admin_user_id = 1; action = promote_admin; target_id = 3 } ∷ [];
}

promote_needs_admin_example :
    (k : ℕ) × (a : Account) × ((change 103).actor_user_id ≡ some k)
    × (find_first (λ b. b.id == k) two_admins.accounts ≡ some a)
    × (is_active_admin a ≡ true)
    × (active_admins two_admins ≤ active_admins three_admins)
unfolding promote require_actor_or_bootstrap require_active_actor
promote_needs_admin_example =
    promote_needs_admin (change 103) two_admins three_admins true refl (omega arith)
