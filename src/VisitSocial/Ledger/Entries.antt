-- ===== src/VisitSocial/Ledger/Entries.antt =====
-- src/visit-social/visit-social.service.ts: what the settlements of two Companions come to, counted
-- at once.
use our_companion_network.Base.{
  ℕ, zero, suc, ◌+◌, ◌*◌, ◌≡◌, refl, Option, none, some, List, [], ◌∷◌, leb, count_where, min,
  arith, if◌then◌else◌, inl, inr, Bool-cases,
}
use our_companion_network.VisitSocial.{
  Settlement, Relationship, Stage, acquainted, familiar, friendly, close, trusted,
}
use our_companion_network.VisitSocial.Relationships.{stage_of, deepen}
use our_companion_network.VisitSocial.Ledger.{is_pair_settlement, earned, add_visit}

abbrev pub pair_visits : ℕ → ℕ → List Settlement → ℕ
pair_visits low high = count_where (is_pair_settlement low high)

abbrev pub pair_turns : ℕ → ℕ → List Settlement → ℕ
pair_turns low high [] = 0
pair_turns low high (s ∷ ss) =
    (if is_pair_settlement low high s then s.turn_count else 0) + pair_turns low high ss

-- The stage after so many steps.
abbrev pub stage_at : ℕ → Stage
stage_at zero = acquainted
stage_at (suc zero) = familiar
stage_at (suc (suc zero)) = friendly
stage_at (suc (suc (suc zero))) = close
stage_at (suc (suc (suc (suc _)))) = trusted

-- A step is taken at the visits 2, 4, 8 and 12.
abbrev pub steps_taken : ℕ → ℕ
steps_taken visits = count_where (λ step. leb step visits) (2 ∷ 4 ∷ 8 ∷ 12 ∷ [])

-- The relationship after so many visits.
abbrev pub entry : ℕ → ℕ → ℕ → ℕ → Option Relationship
entry low high zero turns = none
entry low high (suc n) turns = some (record {
  companion_low_id = low;
  companion_high_id = high;
  stage = stage_at (steps_taken (suc n));
  visit_count = suc n;
  interaction_count = suc n;
  total_turn_count = turns;
  rapport_score = min 100 (8 * suc n);
  topic_affinity_score = min 100 (5 * suc n);
})

stage_of-steps : (n : ℕ) → stage_of n ≡ stage_at (steps_taken n)
unfolding stage_of
stage_of-steps n = ground arith

next_entry :
    (low high turns n total : ℕ)
    → (n ≡ 0 → total ≡ 0)
    → some (add_visit low high turns (entry low high n total))
      ≡ entry low high (suc n) (turns + total)
unfolding deepen
next_entry low high turns zero total z = ground (arith, z refl)
next_entry low high turns (suc n) total z = ground (arith, stage_of-steps (suc n + 1))

no_visits :
    (low high : ℕ) (ss : List Settlement) → pair_visits low high ss ≡ 0 → pair_turns low high ss ≡ 0
no_visits low high [] e = refl
no_visits low high (s ∷ ss) e = ground (arith, no_visits low high ss)

pub earned-entry :
    (low high : ℕ) (ss : List Settlement)
    → earned low high ss ≡ entry low high (pair_visits low high ss) (pair_turns low high ss)
earned-entry low high [] = refl
earned-entry low high (s ∷ ss) = elim (Bool-cases (is_pair_settlement low high s)) [
  | inl e ↦
      let one : 1 + pair_visits low high ss ≡ suc (pair_visits low high ss) = omega arith in
      rw (e, earned-entry low high ss, one)
        (next_entry low high s.turn_count (pair_visits low high ss) (pair_turns low high ss)
          (no_visits low high ss))
  | inr e ↦
      let a : 0 + pair_visits low high ss ≡ pair_visits low high ss = omega arith in
      let b : 0 + pair_turns low high ss ≡ pair_turns low high ss = omega arith in
      rw (e, a, b) (earned-entry low high ss)
]
