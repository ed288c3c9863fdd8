-- ===== src/Config.antt =====
-- src/common/visit-config.service.ts: the limits of the visits. An environment variable is read
-- through a function that gives the natural number it spells, or none (also for a negative number
-- or a fraction, which the test below refuses like a missing one).
use our_companion_network.Base.{
  ℕ, ◌+◌, ◌*◌, ◌≤◌, ◌&&◌, Option, none, some, max, arith, leb, if◌then◌else◌,
}

pub data Key : Type 0 where
  invitation_ttl_hours preparation_ttl_minutes session_max_minutes : Key
  heartbeat_interval_seconds heartbeat_timeout_seconds : Key

pub record VisitRuntimeLimits : Type 0 where
  pub invitation_ttl_hours : ℕ
  pub preparation_ttl_minutes : ℕ
  pub session_max_minutes : ℕ
  pub heartbeat_interval_seconds : ℕ
  pub heartbeat_timeout_seconds : ℕ

-- Number.MAX_SAFE_INTEGER
abbrev pub max_safe_integer : ℕ
max_safe_integer = 9007199254740991

unfoldable pub positive_integer : Option ℕ → ℕ → ℕ → ℕ → ℕ
positive_integer none fallback lo hi = fallback
positive_integer (some value) fallback lo hi =
    if leb value max_safe_integer && leb lo value && leb value hi then value else fallback

-- Math.max(30, configuredTimeout, 2 * interval, interval + 5)
unfoldable pub clamp_timeout : ℕ → ℕ → ℕ
clamp_timeout interval configured = max 30 (max configured (max (interval * 2) (interval + 5)))

unfoldable pub limits : (Key → Option ℕ) → VisitRuntimeLimits
unfolding positive_integer clamp_timeout
limits config = record {
  invitation_ttl_hours = positive_integer (config Key.invitation_ttl_hours) 24 1 168;
  preparation_ttl_minutes = positive_integer (config Key.preparation_ttl_minutes) 10 1 60;
  session_max_minutes = positive_integer (config Key.session_max_minutes) 30 5 240;
  heartbeat_interval_seconds = interval;
  heartbeat_timeout_seconds =
      clamp_timeout interval (positive_integer (config Key.heartbeat_timeout_seconds) 60 1 300);
}
  where
    interval : ℕ
    interval = positive_integer (config Key.heartbeat_interval_seconds) 15 5 60

positive_integer_bounds :
    (value : Option ℕ) (fallback lo hi : ℕ)
    → lo ≤ fallback
    → fallback ≤ hi
    → (lo ≤ positive_integer value fallback lo hi) × (positive_integer value fallback lo hi ≤ hi)
unfolding positive_integer
positive_integer_bounds none fallback lo hi p q = (p, q)
positive_integer_bounds (some value) fallback lo hi p q = ground arith

clamp_timeout_bounds :
    (interval configured : ℕ)
    → (interval * 2 ≤ clamp_timeout interval configured)
      × (interval + 5 ≤ clamp_timeout interval configured)
      × (30 ≤ clamp_timeout interval configured)
      × (configured ≤ clamp_timeout interval configured)
      × (interval ≤ 60 → configured ≤ 300 → clamp_timeout interval configured ≤ 300)
unfolding clamp_timeout
clamp_timeout_bounds interval configured = omega arith

-- What a configuration can yield, whatever the environment holds.
pub record AreSane (l : VisitRuntimeLimits) : Type 0 where
  pub ttl_pos : 1 ≤ l.invitation_ttl_hours
  pub ttl_le : l.invitation_ttl_hours ≤ 168
  pub preparation_pos : 1 ≤ l.preparation_ttl_minutes
  pub preparation_le : l.preparation_ttl_minutes ≤ 60
  pub session_ge : 5 ≤ l.session_max_minutes
  pub session_le : l.session_max_minutes ≤ 240
  pub interval_ge : 5 ≤ l.heartbeat_interval_seconds
  pub interval_le : l.heartbeat_interval_seconds ≤ 60
  pub timeout_ge : 30 ≤ l.heartbeat_timeout_seconds
  pub timeout_le : l.heartbeat_timeout_seconds ≤ 300
  pub timeout_double : l.heartbeat_interval_seconds * 2 ≤ l.heartbeat_timeout_seconds
  pub timeout_slack : l.heartbeat_interval_seconds + 5 ≤ l.heartbeat_timeout_seconds

-- Every configuration gives sane limits.
pub limits-AreSane : (config : Key → Option ℕ) → AreSane (limits config)
unfolding limits
limits-AreSane config =
    let (a, b) =
      positive_integer_bounds (config Key.invitation_ttl_hours) 24 1 168 (omega arith)
        (omega arith) in
    let (c, d) =
      positive_integer_bounds (config Key.preparation_ttl_minutes) 10 1 60 (omega arith)
        (omega arith) in
    let (e, f) =
      positive_integer_bounds (config Key.session_max_minutes) 30 5 240 (omega arith)
        (omega arith) in
    let (g, h) =
      positive_integer_bounds (config Key.heartbeat_interval_seconds) 15 5 60 (omega arith)
        (omega arith) in
    let (i, j) =
      positive_integer_bounds (config Key.heartbeat_timeout_seconds) 60 1 300 (omega arith)
        (omega arith) in
    let (k, l, m, _, n) =
      clamp_timeout_bounds (positive_integer (config Key.heartbeat_interval_seconds) 15 5 60)
        (positive_integer (config Key.heartbeat_timeout_seconds) 60 1 300) in
    record {
      ttl_pos = a;
      ttl_le = b;
      preparation_pos = c;
      preparation_le = d;
      session_ge = e;
      session_le = f;
      interval_ge = g;
      interval_le = h;
      timeout_ge = m;
      timeout_le = n h j;
      timeout_double = k;
      timeout_slack = l;
    }
