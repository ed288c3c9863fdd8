-- ===== src/Companions/Random.antt =====
-- Random visits need a topic: what the requests that could take the last one away see to.
use our_companion_network.Base.{
  subst, ==_iff, Option-cases, find_first_sound, ℕ, ◌≡◌, Bool, true, false, not, ◌&&◌, List, [],
  ◌∷◌, ◌==◌, arith, any, update_where, ok, Result-cases, Bool-cases, inl, inr, value_or,
  any-update_where_self, ◌⊎◌,
}
use our_companion_network.Events.{Publications}
use our_companion_network.Visit.{Companion, Db}
use our_companion_network.Visit.Snapshots.{find_companion}
use our_companion_network.Companions.{write_companion, require_owned_companion, require_owned_topic}
use our_companion_network.Companions.Topics.{
  SocialPolicy, has_random_topic, accepts_random_visits, revoke_shareable_topic,
  update_social_policy, stop_without_topic, revoked_topic, set_policy,
}

-- The Companion of the user accepts random visits and has no topic for them.
abbrev pub is_without_topic : ℕ → ℕ → ℕ → Db → Bool
is_without_topic user companion now db =
    any (accepts_random_visits user companion) db.companions
    && not (has_random_topic companion now db)

stop_without_topic-clears :
    (user companion now : ℕ) (db : Db)
    → is_without_topic user companion now (stop_without_topic user companion now db).0 ≡ false
unfolding stop_without_topic
stop_without_topic-clears user companion now db =
    elim (Bool-cases (has_random_topic companion now db)) [
      | inl e ↦
          rw (stop_without_topic, e)
            (both (any (accepts_random_visits user companion) db.companions) _ e)
      | inr e ↦
          rw (stop_without_topic, e)
            (neither _ (not (has_random_topic companion now db)) (
              any-update_where_self (accepts_random_visits user companion)
                (λ c. record c { random_visits_enabled = false }) db.companions
                (λ c. ground arith)))
    ]
  where
    both : (a b : Bool) → b ≡ true → (a && not b) ≡ false
    both a b h = ground arith

    neither : (a b : Bool) → a ≡ false → (a && b) ≡ false
    neither a b h = ground arith

revoke_shareable_topic-eq-ok :
    (user companion topic now : ℕ) (db db' : Db) (ps : Publications)
    → revoke_shareable_topic user companion topic now db ≡ ok (db', ps)
    → db' ≡ (stop_without_topic user companion now (revoked_topic topic now db)).0
unfolding revoke_shareable_topic
revoke_shareable_topic-eq-ok user companion topic now db db' ps h =
    elim (Result-cases (require_owned_topic user companion topic db)) [
      | inr (_, e) ↦ absurd (ground arith)
      | inl (t, e) ↦ ground arith
    ]

accepts_if_enabled :
    (user companion : ℕ) (enabled : Bool) (dto : SocialPolicy) (cs : List Companion)
    → any
        (accepts_random_visits user companion)
        (update_where (λ c. c.id == companion) (set_policy enabled dto) cs)
      ≡ true
    → enabled ≡ true
accepts_if_enabled user companion enabled dto [] h = absurd (ground arith)
accepts_if_enabled user companion enabled dto (c ∷ cs) h =
    ground (arith, accepts_if_enabled user companion enabled dto cs)

update_social_policy-eq-ok :
    (user companion : ℕ) (dto : SocialPolicy) (now : ℕ) (db db' : Db) (ps : Publications)
    → update_social_policy user companion dto now db ≡ ok (db', ps)
    → (enabled : Bool) × (db' ≡ write_companion companion (set_policy enabled dto) db)
      × (enabled ≡ true → has_random_topic companion now db ≡ true)
unfolding update_social_policy require_owned_companion
update_social_policy-eq-ok user companion dto now db db' ps h =
    elim (Option-cases (find_companion companion db)) [
      | inl e ↦ absurd (ground arith)
      | inr (c, e) ↦
          let same = find_first_sound (λ x. x.id == companion) db.companions c e in
          elim (Bool-cases (value_or dto.random_visits_enabled c.random_visits_enabled)) [
            | inr f ↦ (false, ground arith, λ t. absurd (ground arith))
            | inl f ↦ (true, ground arith, λ t. topic_of c same (ground arith))
          ]
    ]
  where
    topic_of :
        (c : Companion)
        → (c.id == companion) ≡ true
        → has_random_topic c.id now db ≡ true
        → has_random_topic companion now db ≡ true
    topic_of c e h = subst (λ k. has_random_topic k now db ≡ true) ((==_iff c.id companion).0 e) h

-- Right after a topic has been revoked, and right after the policy has been updated, the Companion
-- that the request names has a topic for random visits, if it is the user's and accepts them; the
-- count of the topics and the write that follows it are one step.
pub random_visits_have_topic :
    (user companion topic : ℕ) (dto : SocialPolicy) (now : ℕ) (db db' : Db) (ps : Publications)
    → (revoke_shareable_topic user companion topic now db ≡ ok (db', ps))
      ⊎ (update_social_policy user companion dto now db ≡ ok (db', ps))
    → is_without_topic user companion now db' ≡ false
random_visits_have_topic user companion topic dto now db db' ps (inl h) =
    rw (revoke_shareable_topic-eq-ok user companion topic now db db' ps h)
      (stop_without_topic-clears user companion now (revoked_topic topic now db))
random_visits_have_topic user companion topic dto now db db' ps (inr h) =
    let (enabled, e, t) = update_social_policy-eq-ok user companion dto now db db' ps h in
    rw e (
      implied _ (has_random_topic companion now db)
        (λ a. t (accepts_if_enabled user companion enabled dto db.companions a)))
  where
    implied : (a b : Bool) → (a ≡ true → b ≡ true) → (a && not b) ≡ false
    implied a b h = ground (arith, h)
