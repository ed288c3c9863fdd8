-- ===== src/Companions/Packs/Switching.antt =====
-- What an activation that succeeds writes, and which errors one may end in.
use our_companion_network.Base.{
  ℕ, ◌≡◌, refl, sym, ◌∙◌, Bool, true, false, ◌&&◌, Option, none, some, ◌==◌, arith, any, is_id,
  value_or, Code, Error, not_found, conflict, ok, err, Result-cases, Option-cases, Bool-cases, inl,
  inr, ◌⊎◌, if◌then◌else◌, any-update_where_self, is_some, find_first_sound, subst,
}
use our_companion_network.Events.{Publications}
use our_companion_network.Visit.{AssetPack, PackStatus, Db}
use our_companion_network.Visit.Snapshots.{find_companion, find_pack, is_active_pack}
use our_companion_network.Companions.{require_owned_pack, assert_companion_mutation_allowed}
use our_companion_network.Companions.Packs.{is_status, pack_index, write_packs, claim_pack}
use our_companion_network.Companions.Packs.Activation.{
  is_other_active, supersede_others, point_to, set_active, mark_verified, activate_verified_pack,
  with_active_pack_unique_retry, finish_completion, activate_asset_pack,
}

abbrev pub set_active_where : ℕ → AssetPack → AssetPack → Bool
set_active_where companion target p =
    p.id == target.id
    && p.companion_id == companion
    && pack_index p.status == pack_index target.status

abbrev pub made_active : Option ℕ → ℕ → AssetPack → AssetPack
made_active completed_at now p = record p {
  status = PackStatus.active;
  activated_at = some (value_or completed_at now);
  superseded_at = none;
  failure_code = none;
  completed_at = if is_some completed_at then completed_at else p.completed_at;
}

-- After the supersession no other pack of the Companion is active.
pub supersede_others_clears :
    (companion target at now : ℕ) (db : Db)
    → any (is_other_active companion target) (supersede_others companion target at now db).packs
      ≡ false
unfolding supersede_others
supersede_others_clears companion target at now db =
    any-update_where_self (is_other_active companion target) _ db.packs (λ p. ground arith)

-- The tables that an activation writes.
pub data Activated (companion target : ℕ) (allowed : PackStatus) (completed_at : Option ℕ) (now : ℕ)
    (db db' : Db) : Type 0 where
  unchanged : db' ≡ db → Activated companion target allowed completed_at now db db'
  repaired :
      (p : AssetPack)
      → find_pack target db ≡ some p
      → p.companion_id ≡ companion
      → is_active_pack p.status ≡ true
      → db' ≡ point_to companion target (supersede_others companion target now now db)
      → Activated companion target allowed completed_at now db db'
  activated :
      (p : AssetPack)
      → p.id ≡ target
      → is_status allowed p ≡ true
      → any
          (set_active_where companion p)
          (supersede_others companion target (value_or completed_at now) now db).packs
        ≡ true
      → db'
        ≡ point_to companion target (
            mark_verified target completed_at (
              write_packs now
                (set_active_where companion p)
                (made_active completed_at now)
                (supersede_others companion target (value_or completed_at now) now db)))
      → Activated companion target allowed completed_at now db db'

set_active-cases :
    (companion : ℕ) (p : AssetPack) (completed_at : Option ℕ) (now : ℕ) (db : Db)
    → any (is_other_active companion p.id) db.packs ≡ false
    → ((any (set_active_where companion p) db.packs ≡ true)
        × (set_active companion p completed_at now db
            ≡ ok
                (write_packs now (set_active_where companion p) (made_active completed_at now) db)))
      ⊎ (set_active companion p completed_at now db ≡ err (conflict Code.asset_pack_state_changed))
unfolding set_active claim_pack
set_active-cases companion p completed_at now db h = ground arith

found_id : (target : ℕ) (db : Db) (p : AssetPack) → find_pack target db ≡ some p → p.id ≡ target
found_id target db p e = let f = find_first_sound (λ q. q.id == target) db.packs p e in ground arith

-- An activation succeeds, or one of the rows is missing, or the pack was not in the status asked
-- for. It never meets the unique index of the active packs.
pub activate_verified_pack-cases :
    (companion target : ℕ) (allowed : PackStatus) (completed_at : Option ℕ) (now : ℕ) (db : Db)
    → ((db' : Db) × (activate_verified_pack companion target allowed completed_at now db ≡ ok db')
        × Activated companion target allowed completed_at now db db')
      ⊎ ((activate_verified_pack companion target allowed completed_at now db
            ≡ err (not_found Code.companion_not_found))
          ⊎ ((activate_verified_pack companion target allowed completed_at now db
                ≡ err (not_found Code.asset_pack_not_found))
              ⊎ (activate_verified_pack companion target allowed completed_at now db
                  ≡ err (conflict Code.asset_pack_state_changed))))
unfolding activate_verified_pack
activate_verified_pack-cases companion target allowed completed_at now db =
    elim (Option-cases (find_companion companion db)) [
      | inl e ↦ inr (inl (ground arith))
      | inr (c, e) ↦ elim (Option-cases (find_pack target db)) [
        | inl f ↦ inr (inr (inl (ground arith)))
        | inr (p, f) ↦ elim (Bool-cases (p.companion_id == companion)) [
          | inr g ↦ inr (inr (inr (ground arith)))
          | inl g ↦ elim (Bool-cases (is_active_pack p.status)) [
            | inl a ↦ elim (Bool-cases (is_id c.active_asset_pack_id target)) [
              | inl i ↦ inl (db, ground arith, unchanged refl)
              | inr i ↦ inl (
                point_to companion target (supersede_others companion target now now db),
                ground arith,
                repaired p f (ground arith) a refl,
              )
            ]
            | inr a ↦ elim (Bool-cases (is_status allowed p)) [
              | inr i ↦ inr (inr (inr (ground arith)))
              | inl i ↦
                  elim (set_active-cases companion p completed_at now
                    (supersede_others companion target (value_or completed_at now) now db)
                    (subst
                      (λ k.
                        any (is_other_active companion k)
                          (supersede_others companion target (value_or completed_at now) now
                            db).packs
                        ≡ false)
                      (sym (found_id target db p f))
                      (supersede_others_clears companion target (value_or completed_at now) now
                        db))) [
                          | inl (u, v) ↦ inl (
                            point_to companion target (
                                mark_verified target completed_at (
                                  write_packs now (set_active_where companion p)
                                    (made_active completed_at now)
                                    (supersede_others companion target (value_or completed_at now)
                                      now db))),
                            ground arith,
                            activated p (found_id target db p f) i u refl,
                          )
                          | inr v ↦ inr (inr (inr (ground arith)))
                        ]
            ]
          ]
        ]
      ]
    ]

-- An activation never meets the unique index of the active packs, since it supersedes the others
-- first; so the second attempt, for which the database may have changed, is never made.
pub no_second_attempt :
    (companion target : ℕ) (allowed : PackStatus) (completed_at : Option ℕ) (now : ℕ)
    (db later : Db)
    → with_active_pack_unique_retry
        (activate_verified_pack companion target allowed completed_at now)
        db
        later
      ≡ activate_verified_pack companion target allowed completed_at now db
unfolding with_active_pack_unique_retry
no_second_attempt companion target allowed completed_at now db later =
    elim (activate_verified_pack-cases companion target allowed completed_at now db) [
      | inl (_, e, _) ↦ rw e refl
      | inr (inl e) ↦ rw e refl
      | inr (inr (inl e)) ↦ rw e refl
      | inr (inr (inr e)) ↦ rw e refl
    ]

-- So a request that succeeds has activated the pack.
pub with_retry-Activated :
    (companion target : ℕ) (allowed : PackStatus) (completed_at : Option ℕ) (now : ℕ)
    (db later db' : Db)
    → with_active_pack_unique_retry
        (activate_verified_pack companion target allowed completed_at now)
        db
        later
      ≡ ok db'
    → Activated companion target allowed completed_at now db db'
unfolding with_active_pack_unique_retry
with_retry-Activated companion target allowed completed_at now db later db' h =
    elim (activate_verified_pack-cases companion target allowed completed_at now db) [
      | inl (d, e, a) ↦
          subst (Activated companion target allowed completed_at now db)
            (same_db d db' (sym e ∙ done)) a
      | inr (inl e) ↦ absurd (refused _ db' (sym e ∙ done))
      | inr (inr (inl e)) ↦ absurd (refused _ db' (sym e ∙ done))
      | inr (inr (inr e)) ↦ absurd (refused _ db' (sym e ∙ done))
    ]
  where
    done : activate_verified_pack companion target allowed completed_at now db ≡ ok db'
    done = sym (no_second_attempt companion target allowed completed_at now db later) ∙ h

    same_db : (d e : Db) → ok d ≡ ok e → d ≡ e
    same_db d e h = cc

    refused : (x : Error) (d : Db) → err x ≡ ok d → ⊥
    refused x d h = cc

pub finish_completion-eq-ok :
    (user : ℕ) (started : AssetPack) (now : ℕ) (db later db' : Db) (ps : Publications)
    → finish_completion user started now db later ≡ ok (db', ps)
    → Activated started.companion_id started.id PackStatus.verifying (some now) now db db'
unfolding finish_completion
finish_completion-eq-ok user started now db later db' ps h =
    elim (Result-cases (
      with_active_pack_unique_retry
        (activate_verified_pack started.companion_id started.id PackStatus.verifying (some now) now)
        db later)) [
          | inr (_, e) ↦ absurd (ground arith)
          | inl (d, e) ↦
              subst
                (Activated started.companion_id started.id PackStatus.verifying (some now) now db)
                (ground arith)
                (with_retry-Activated started.companion_id started.id PackStatus.verifying
                  (some now) now db later d e)
        ]

pub activate_asset_pack-eq-ok :
    (user pack now : ℕ) (db later db' : Db) (ps : Publications)
    → activate_asset_pack user pack now db later ≡ ok (db', ps)
    → (companion : ℕ) × Activated companion pack PackStatus.superseded none now db db'
unfolding activate_asset_pack assert_companion_mutation_allowed
activate_asset_pack-eq-ok user pack now db later db' ps h =
    elim (Result-cases (require_owned_pack user pack db)) [
      | inr (_, e) ↦ absurd (ground arith)
      | inl (p, e) ↦
          elim (Result-cases (
            with_active_pack_unique_retry
              (activate_verified_pack p.companion_id pack PackStatus.superseded none now) db
              later)) [
                | inr (_, f) ↦ absurd (ground arith)
                | inl (d, f) ↦ (
                  p.companion_id,
                  subst (Activated p.companion_id pack PackStatus.superseded none now db)
                      (ground arith)
                      (with_retry-Activated p.companion_id pack PackStatus.superseded none now db
                        later d f),
                )
              ]
    ]
