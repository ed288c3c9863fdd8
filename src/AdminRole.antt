-- ===== src/AdminRole.antt =====
-- src/admin/admin-role.service.ts: who is a super administrator. A uid stands for its trimmed
-- upper-case form, a reason for the length of its trimmed text. A change of a role is serialised by
-- one lock, so it is one step.
pub mod Succession
use our_companion_network.Base.{
  ℕ, Bool, true, false, not, ◌&&◌, ◌||◌, Option, none, some, List, [], ◌∷◌, ◌==◌, leb, ltb,
  find_first, count_where, update_where, if◌then◌else◌, Code, Error, not_found, conflict, forbidden,
  bad_request, Result, ok, err, ◌>>=◌, ◌>>◌, guard, or_fail,
}
use our_companion_network.Social.{AccountStatus, active, suspended}

pub data UserRole : Type 0 where
  user superadmin : UserRole

pub record Account : Type 0 where
  pub id : ℕ
  pub uid : ℕ
  pub role : UserRole
  pub account_status : AccountStatus

pub data AuditAction : Type 0 where
  promote_admin demote_admin : AuditAction

-- `AdminAuditLog`, with the columns that tell who changed whom.
pub record AuditEntry : Type 0 where
  pub admin_user_id : ℕ
  pub action : AuditAction
  pub target_id : ℕ

pub record Roles : Type 0 where
  pub accounts : List Account
  pub audit : List AuditEntry

pub record AdminRoleChangeInput : Type 0 where
  pub target_uid : ℕ
  pub reason_length : ℕ
  pub actor_user_id : Option ℕ

abbrev pub is_superadmin : UserRole → Bool
is_superadmin superadmin = true
is_superadmin user = false

abbrev pub is_active_account : AccountStatus → Bool
is_active_account active = true
is_active_account suspended = false

-- `role: 'SUPERADMIN', accountStatus: 'ACTIVE'`
abbrev pub is_active_admin : Account → Bool
is_active_admin a = is_superadmin a.role && is_active_account a.account_status

abbrev pub active_admins : Roles → ℕ
active_admins s = count_where is_active_admin s.accounts

abbrev pub require_reason : ℕ → Result (Unit {0})
require_reason n = guard (not (ltb n 4) && not (ltb 500 n)) (bad_request Code.admin_reason_required)

abbrev pub lock_target : ℕ → Roles → Result Account
lock_target uid s =
    or_fail (find_first (λ a. a.uid == uid) s.accounts) (not_found Code.admin_target_not_found)

unfoldable pub require_active_actor : Option ℕ → Roles → Result ℕ
require_active_actor actor s = do
  id ← or_fail actor (forbidden Code.admin_actor_required)
  account ← or_fail (find_first (λ a. a.id == id) s.accounts) (forbidden Code.superadmin_required)
  guard (is_active_admin account) (forbidden Code.superadmin_required)
  ok id

-- Without any active administrator the target may promote itself.
unfoldable pub require_actor_or_bootstrap : Option ℕ → ℕ → Roles → Result ℕ
require_actor_or_bootstrap (some id) target s = require_active_actor (some id) s
require_actor_or_bootstrap none target s =
    if active_admins s == 0 then ok target else err (forbidden Code.admin_actor_required)

unfoldable pub set_role : UserRole → ℕ → List Account → List Account
set_role role id = update_where (λ a. a.id == id) (λ a. record a { role = role })

abbrev entry : ℕ → AuditAction → ℕ → AuditEntry
entry admin action target = record { admin_user_id = admin; action = action; target_id = target }

-- Whether the role has changed, with the new tables.
unfoldable pub promote : AdminRoleChangeInput → Roles → Result (Bool × Roles)
unfolding set_role
promote input s = do
  require_reason input.reason_length
  target ← lock_target input.target_uid s
  admin ← require_actor_or_bootstrap input.actor_user_id target.id s
  if is_superadmin target.role
      then ok (false, s)
      else ok (
        true,
        record {
          accounts = set_role superadmin target.id s.accounts;
          audit = entry admin promote_admin target.id ∷ s.audit;
        },
      )

unfoldable pub demote : AdminRoleChangeInput → Roles → Result (Bool × Roles)
unfolding set_role
demote input s = do
  require_reason input.reason_length
  target ← lock_target input.target_uid s
  admin ← require_active_actor input.actor_user_id s
  if not (is_superadmin target.role)
      then ok (false, s)
      else if is_active_account target.account_status && leb (active_admins s) 1
      then err (conflict Code.last_superadmin)
      else ok (
        true,
        record {
          accounts = set_role user target.id s.accounts;
          audit = entry admin demote_admin target.id ∷ s.audit;
        },
      )
