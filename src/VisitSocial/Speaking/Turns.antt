-- ===== src/VisitSocial/Speaking/Turns.antt =====
-- src/visit-social/visit-social.service.ts: the turns that appendTurn writes are a talk.
use our_companion_network.Base.{ℕ, ◌≡◌, some, ◌∷◌, find_first, ◌⊎◌}
use our_companion_network.Visit.{SessionState}
use our_companion_network.VisitSocial.{Turn, Store}
use our_companion_network.VisitSocial.Rooms.{next_actor, load_active_participants}
use our_companion_network.VisitSocial.Turns.{TurnInput, is_client_turn}
use our_companion_network.VisitSocial.Speaking.{latest}
use our_companion_network.VisitSocial.Numbering.{turns_of}

-- A call repeats a turn of its client, or its turn is that of the actor whose turn it was.
abbrev pub IsRepeatedOrDue : ℕ → ℕ → TurnInput → Store → Store → Turn → Type 0
IsRepeatedOrDue user session_id input st st' t =
    ((find_first (is_client_turn session_id input.client_turn_id) st.turns ≡ some t) × (st' ≡ st))
    ⊎ ((next_actor SessionState.active (load_active_participants session_id st.db)
            (latest (turns_of session_id st.turns))
          ≡ some user)
        × (t.sender_user_id ≡ user)
        × (st'.turns ≡ t ∷ st.turns))
