-- ===== src/AdminRole/Succession.antt =====
-- The super administrators that promotions and demotions leave.
use our_companion_network.Base.{
  ℕ, suc, ◌≤◌, ◌≡◌, refl, sym, subst, Bool, true, false, ◌&&◌, Option, none, some, List, [], ◌∷◌,
  ◌==◌, arith, any, any_of_find_first, find_first, count_where, Unique, ok, Result-cases,
  Option-cases, Bool-cases, inl, inr, ◌⊎◌,
}
use our_companion_network.AdminRole.{
  UserRole, superadmin, user, Account, Roles, AdminRoleChangeInput, is_active_admin, active_admins,
  require_active_actor, require_actor_or_bootstrap, set_role, promote, demote,
}

abbrev pub same_id : Account → Account → Bool
same_id a b = a.id == b.id

-- An identifier that no row has.
set_role_absent :
    (role : UserRole) (k : ℕ) (xs : List Account)
    → any (λ a. a.id == k) xs ≡ false
    → set_role role k xs ≡ xs
unfolding set_role
set_role_absent role k [] e = refl
set_role_absent role k (x ∷ xs) e = ground (arith, set_role_absent role k xs)

promoted :
    (k : ℕ) (xs : List Account)
    → count_where is_active_admin xs ≤ count_where is_active_admin (set_role superadmin k xs)
unfolding set_role
promoted k [] = omega arith
promoted k (x ∷ xs) = ground (arith, promoted k xs)

absent_after :
    (k : ℕ) (y : Account) (ys : List Account)
    → (y.id == k) ≡ true
    → any (same_id y) ys ≡ false
    → any (λ a. a.id == k) ys ≡ false
absent_after k y [] q f = refl
absent_after k y (z ∷ zs) q f = ground (arith, absent_after k y zs)

-- One account loses its role at most.
demoted :
    (k : ℕ) (xs : List Account)
    → Unique same_id xs
    → count_where is_active_admin xs ≤ suc (count_where is_active_admin (set_role user k xs))
unfolding set_role
demoted k [] u = omega arith
demoted k (x ∷ xs) (n, u) = elim (Bool-cases (x.id == k)) [
  | inr e ↦ ground (arith, demoted k xs u)
  | inl e ↦ ground (arith, set_role_absent user k xs (absent_after k x xs e n))
]

-- An account that does not count can lose its role.
demoted_none :
    (k : ℕ) (xs : List Account)
    → any (λ a. a.id == k && is_active_admin a) xs ≡ false
    → count_where is_active_admin xs ≤ count_where is_active_admin (set_role user k xs)
unfolding set_role
demoted_none k [] h = omega arith
demoted_none k (x ∷ xs) h = ground (arith, demoted_none k xs)

only_target :
    (uid : ℕ) (xs : List Account) (t : Account)
    → Unique same_id xs
    → find_first (λ a. a.uid == uid) xs ≡ some t
    → is_active_admin t ≡ false
    → any (λ a. a.id == t.id && is_active_admin a) xs ≡ false
only_target uid [] t u e h = refl
only_target uid (x ∷ xs) t (n, u) e h = elim (Bool-cases (x.uid == uid)) [
  | inr q ↦
      ground (arith, only_target uid xs t u, any_of_find_first (λ a. a.uid == uid) (same_id x) xs t)
  | inl q ↦
      let same : x ≡ t = unwrap x t (ground arith) in
      subst (λ y. any (λ a. a.id == t.id && is_active_admin a) (y ∷ xs) ≡ false) (sym same)
        (head_only t xs h (subst (λ y. any (same_id y) xs ≡ false) same n))
]
  where
    unwrap : (a b : Account) → some a ≡ some b → a ≡ b
    unwrap a b k = cc

    head_only :
        (y : Account) (ys : List Account)
        → is_active_admin y ≡ false
        → any (same_id y) ys ≡ false
        → any (λ a. a.id == y.id && is_active_admin a) (y ∷ ys) ≡ false
    head_only y [] f g = ground arith
    head_only y (z ∷ zs) f g = ground (arith, head_only y zs)

counted :
    (k : ℕ) (xs : List Account) (a : Account)
    → find_first (λ b. b.id == k) xs ≡ some a
    → is_active_admin a ≡ true
    → 1 ≤ count_where is_active_admin xs
counted k [] a e h = ground arith
counted k (x ∷ xs) a e h = ground (arith, counted k xs a)

actor_counts :
    (actor : Option ℕ) (k : ℕ) (s : Roles)
    → require_active_actor actor s ≡ ok k
    → 1 ≤ active_admins s
unfolding require_active_actor
actor_counts none k s h = ground arith
actor_counts (some id) k s h = elim (Option-cases (find_first (λ b. b.id == id) s.accounts)) [
  | inl e ↦ absurd (ground arith)
  | inr (a, e) ↦ ground (arith, counted id s.accounts a e)
]

demote-eq-ok :
    (input : AdminRoleChangeInput) (s s' : Roles) (changed : Bool)
    → demote input s ≡ ok (changed, s')
    → (t : Account) × (find_first (λ a. a.uid == input.target_uid) s.accounts ≡ some t)
      × (1 ≤ active_admins s)
      × ((s' ≡ s)
          ⊎ ((s'.accounts ≡ set_role user t.id s.accounts)
              × ((is_active_admin t ≡ false) ⊎ (2 ≤ active_admins s))))
unfolding demote
demote-eq-ok input s s' changed h =
    elim (Option-cases (find_first (λ a. a.uid == input.target_uid) s.accounts)) [
      | inl e ↦ absurd (ground arith)
      | inr (t, e) ↦ elim (Result-cases (require_active_actor input.actor_user_id s)) [
        | inr (_, f) ↦ absurd (ground arith)
        | inl (k, f) ↦ (t, e, actor_counts input.actor_user_id k s f, ground arith)
      ]
    ]

-- A demotion that succeeds, whether it changes a role or not, leaves an active super administrator.
pub demote_leaves_admin :
    (input : AdminRoleChangeInput) (s s' : Roles) (changed : Bool)
    → Unique same_id s.accounts
    → demote input s ≡ ok (changed, s')
    → 1 ≤ active_admins s'
demote_leaves_admin input s s' changed u h =
    let (t, e, one, w) = demote-eq-ok input s s' changed h in
    elim w [
      | inl f ↦ rw f one
      | inr (f, inl n) ↦ rw f (
          trans_le one
            (demoted_none t.id s.accounts (only_target input.target_uid s.accounts t u e n)))
      | inr (f, inr two) ↦ rw f (less_one two (demoted t.id s.accounts u))
    ]
  where
    trans_le : {a b c : ℕ} → a ≤ b → b ≤ c → a ≤ c
    trans_le p q = omega arith

    less_one : {a b : ℕ} → 2 ≤ a → a ≤ suc b → 1 ≤ b
    less_one p q = omega arith

present_actor :
    (actor : Option ℕ) (target k : ℕ) (s : Roles)
    → require_actor_or_bootstrap actor target s ≡ ok k
    → 1 ≤ active_admins s
    → (a : Account) × (actor ≡ some k)
      × (find_first (λ b. b.id == k) s.accounts ≡ some a)
      × (is_active_admin a ≡ true)
unfolding require_actor_or_bootstrap require_active_actor
present_actor none target k s h one = absurd (ground arith)
present_actor (some id) target k s h one =
    elim (Option-cases (find_first (λ b. b.id == id) s.accounts)) [
      | inl e ↦ absurd (ground arith)
      | inr (a, e) ↦
          let same : id ≡ k = ground arith in (a, rw same refl, rw same at e, ground arith)
    ]

-- While there is an active super administrator, a promotion that succeeds was asked for by one, and
-- takes nobody's role.
pub promote_needs_admin :
    (input : AdminRoleChangeInput) (s s' : Roles) (changed : Bool)
    → promote input s ≡ ok (changed, s')
    → 1 ≤ active_admins s
    → (k : ℕ) × (a : Account) × (input.actor_user_id ≡ some k)
      × (find_first (λ b. b.id == k) s.accounts ≡ some a)
      × (is_active_admin a ≡ true)
      × (active_admins s ≤ active_admins s')
unfolding promote
promote_needs_admin input s s' changed h one =
    elim (Option-cases (find_first (λ a. a.uid == input.target_uid) s.accounts)) [
      | inl e ↦ absurd (ground arith)
      | inr (t, e) ↦ elim (Result-cases (require_actor_or_bootstrap input.actor_user_id t.id s)) [
        | inr (_, f) ↦ absurd (ground arith)
        | inl (k, f) ↦
            let (a, g, p, q) = present_actor input.actor_user_id t.id k s f one in
            (k, a, g, p, q, ground (arith, promoted t.id s.accounts))
      ]
    ]
