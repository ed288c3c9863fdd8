-- ===== src/Examples/Limits.antt =====
-- The theorems on rates and pages at concrete calls.
use our_companion_network.Base.{ℕ, ◌≤◌, ◌≡◌, [], ◌∷◌, List, count_where, arith, false, some, none}
use our_companion_network.RateLimit.{visit_heartbeat, visit_create, is_recent, limit}
use our_companion_network.RateLimit.Bounds.{Call}
use our_companion_network.RateLimit.Window.{pass, pass-le-limit}
use our_companion_network.Pagination.Pages.{collect, collect-total_pages}
use our_companion_network.Pagination.{page_envelope, bounded_page}

abbrev beats : List ℕ
beats = 0 ∷ 10 ∷ 20 ∷ 30 ∷ 40 ∷ 50 ∷ 60 ∷ 70 ∷ 80 ∷ 90 ∷ 100 ∷ 110 ∷ 120 ∷ []

pass-le-limit_example :
    count_where (is_recent visit_heartbeat 130) (pass 1 visit_heartbeat beats [] [])
    ≤ limit visit_heartbeat
pass-le-limit_example = pass-le-limit 1 visit_heartbeat beats 130 (
  omega arith,
  (
    omega arith,
    (
      omega arith,
      (
        omega arith,
        (
          omega arith,
          (
            omega arith,
            (
              omega arith,
              (
                omega arith,
                (
                  omega arith,
                  (omega arith, (omega arith, (omega arith, (omega arith, omega arith)))),
                ),
              ),
            ),
          ),
        ),
      ),
    ),
  ),
)

abbrev calls : List Call
calls =
    record { bypass = false; user_id = 1; policy = visit_create; at = 5 }
    ∷ record { bypass = false; user_id = 2; policy = visit_heartbeat; at = 6 }
    ∷ []

abbrev three : List ℕ
three = 1 ∷ 2 ∷ 3 ∷ []

collect-total_pages_example :
    collect (some 2) 1 (page_envelope three 3 (bounded_page none (some 2))).pages three ≡ three
collect-total_pages_example = collect-total_pages (some 2) three (omega arith)
