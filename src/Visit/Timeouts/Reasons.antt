-- ===== src/Visit/Timeouts/Reasons.antt =====
-- When a session times out, and when it does not.
use our_companion_network.Base.{ℕ, ◌+◌, ◌*◌, ◌≤◌, ◌≡◌, refl, Option, none, some, arith, false, ltb}
use our_companion_network.Config.{Key, VisitRuntimeLimits, limits, limits-AreSane}
use our_companion_network.Visit.{SessionState, Session}
use our_companion_network.Visit.Timeouts.{timeout_reason}

-- Two beats later is no later than the deadline.
late_beat :
    (seen now interval timeout : ℕ)
    → now ≤ seen + interval * 2 * 1000
    → interval * 2 ≤ timeout
    → ltb (seen + timeout * 1000) now ≡ false
late_beat seen now interval timeout h d = ground arith

in_time : (from now span : ℕ) → now ≤ from + span → ltb (from + span) now ≡ false
in_time from now span h = ground arith

module _ (l : VisitRuntimeLimits) (now : ℕ) (s : Session) (v h : ℕ)
    (v_seen : s.visitor_owner_seen_at ≡ some v) (h_seen : s.host_seen_at ≡ some h)
    (v_late : ltb (v + l.heartbeat_timeout_seconds * 1000) now ≡ false)
    (h_late : ltb (h + l.heartbeat_timeout_seconds * 1000) now ≡ false) where
  active_survives :
      (from : ℕ)
      → s.state ≡ SessionState.active
      → s.started_at ≡ some from
      → ltb (from + l.session_max_minutes * 60000) now ≡ false
      → timeout_reason l now s ≡ none
  unfolding timeout_reason
  active_survives from a e t = rw (a, e, t, v_seen, h_seen, v_late, h_late) refl

-- An active session within its time, in which both sides sent a heartbeat within the last two
-- intervals, never times out, whatever the configuration.
pub beating_session_survives :
    (config : Key → Option ℕ) (now from v h : ℕ) (s : Session)
    → s.state ≡ SessionState.active
    → s.started_at ≡ some from
    → s.visitor_owner_seen_at ≡ some v
    → s.host_seen_at ≡ some h
    → now ≤ from + (limits config).session_max_minutes * 60000
    → now ≤ v + (limits config).heartbeat_interval_seconds * 2 * 1000
    → now ≤ h + (limits config).heartbeat_interval_seconds * 2 * 1000
    → timeout_reason (limits config) now s ≡ none
beating_session_survives config now from v h s a f p q t x y =
    active_survives l now s v h p q
      (late_beat v now l.heartbeat_interval_seconds l.heartbeat_timeout_seconds x d)
      (late_beat h now l.heartbeat_interval_seconds l.heartbeat_timeout_seconds y d) from a f
      (in_time from now (l.session_max_minutes * 60000) t)
  where
    l : VisitRuntimeLimits
    l = limits config

    d : l.heartbeat_interval_seconds * 2 ≤ l.heartbeat_timeout_seconds
    d = (limits-AreSane config).timeout_double
