-- ===== src/VisitSocial/Relationships.antt =====
-- src/visit-social/visit-social.service.ts: what the Companions of a visit gain by it, once for each
-- two of them.
use our_companion_network.Base.{
  ℕ, ◌+◌, Bool, ◌&&◌, ◌||◌, List, [], ◌∷◌, ◌++◌, ◌==◌, leb, any, where_, update_where, count_where,
  is_some, if◌then◌else◌, min, max,
}
use our_companion_network.Visit.{Participant}
use our_companion_network.VisitSocial.{
  Turn, Settlement, Relationship, Stage, acquainted, familiar, friendly, close, trusted, Store,
}

abbrev pub is_pair : ℕ → ℕ → Relationship → Bool
is_pair low high r = r.companion_low_id == low && r.companion_high_id == high

-- The `CASE` on the number of visits.
unfoldable pub stage_of : ℕ → Stage
stage_of visits =
    if leb 12 visits
    then trusted
    else if leb 8 visits
    then close
    else if leb 4 visits
    then friendly
    else if leb 2 visits
    then familiar
    else acquainted

abbrev pub new_relationship : ℕ → ℕ → ℕ → Relationship
new_relationship low high turns = record {
  companion_low_id = low;
  companion_high_id = high;
  stage = acquainted;
  visit_count = 1;
  interaction_count = 1;
  total_turn_count = turns;
  rapport_score = 8;
  topic_affinity_score = 5;
}

unfoldable pub deepen : ℕ → Relationship → Relationship
deepen turns r = record r {
  visit_count = r.visit_count + 1;
  interaction_count = r.interaction_count + 1;
  total_turn_count = r.total_turn_count + turns;
  rapport_score = min 100 (r.rapport_score + 8);
  topic_affinity_score = min 100 (r.topic_affinity_score + 5);
  stage = stage_of (r.visit_count + 1);
}

unfoldable pub upsert_relationship : ℕ → ℕ → ℕ → List Relationship → List Relationship
unfolding deepen
upsert_relationship low high turns rs =
    if any (is_pair low high) rs
    then update_where (is_pair low high) (deepen turns) rs
    else new_relationship low high turns ∷ rs

unfoldable pub update_relationship_pair : ℕ → ℕ → ℕ → List Relationship → List Relationship
update_relationship_pair first second turns rs =
    if first == second
    then rs
    else upsert_relationship (min first second) (max first second) turns rs

abbrev pub is_settlement : ℕ → ℕ → ℕ → Settlement → Bool
is_settlement session low high s =
    s.session_id == session && s.companion_low_id == low && s.companion_high_id == high

unfoldable pub pair_turn_count : ℕ → Participant → Participant → List Turn → ℕ
pair_turn_count session first second = count_where (λ t.
    t.session_id == session
    && (t.sender_user_id == first.user_id || t.sender_user_id == second.user_id))

-- One round of the loops. The settlement is inserted `ON CONFLICT DO NOTHING`.
unfoldable pub settle_pair : ℕ → Participant → Participant → Store → Store
settle_pair session first second st =
    let low = min first.companion_id second.companion_id in
    let high = max first.companion_id second.companion_id in
    let turns = pair_turn_count session first second st.turns in
    if any (is_settlement session low high) st.settlements then st else record st {
      settlements =
          record {
            session_id = session;
            companion_low_id = low;
            companion_high_id = high;
            turn_count = turns;
          }
          ∷ st.settlements;
      relationships = update_relationship_pair low high turns st.relationships;
    }

abbrev pub settle_with : ℕ → Participant → List Participant → Store → Store
settle_with session first [] st = st
settle_with session first (p ∷ ps) st =
    settle_with session first ps (settle_pair session first p st)

abbrev pub settle_pairs : ℕ → List Participant → Store → Store
settle_pairs session [] st = st
settle_pairs session (p ∷ ps) st = settle_pairs session ps (settle_with session p ps st)

-- `map.set(companion, participant)`: the row takes the place of one with the same key.
abbrev pub map_set : Participant → List Participant → List Participant
map_set p ps =
    if any (λ q. q.companion_id == p.companion_id) ps
    then update_where (λ q. q.companion_id == p.companion_id) (λ _. p) ps
    else ps ++ p ∷ []

abbrev pub map_set_all : List Participant → List Participant → List Participant
map_set_all [] acc = acc
map_set_all (p ∷ ps) acc = map_set_all ps (map_set p acc)

abbrev pub ready_participants : List Participant → List Participant
ready_participants ps = map_set_all (where_ (λ p. is_some p.ready_at) ps) []

unfoldable pub settle_relationships : ℕ → List Participant → Store → Store
settle_relationships session participants = settle_pairs session (ready_participants participants)
