-- ===== src/Companions/Packs/Quota.antt =====
-- The storage that the asset packs of a user take.
use our_companion_network.Base.{
  ℕ, ◌≡◌, sym, subst, ◌∙◌, Bool, true, ◌&&◌, some, List, [], ◌∷◌, ◌==◌, arith, any, ◌+◌, ◌≤◌,
  find_first, if◌then◌else◌,
}
use our_companion_network.Visit.{Companion, AssetPack, Db}
use our_companion_network.Visit.Snapshots.{find_companion}
use our_companion_network.Companions.Packs.{StorageLimits}
use our_companion_network.Companions.Packs.Uploads.{
  is_stored, sum_bytes, counts_for, usage, new_pack,
}
use our_companion_network.Companions.Packs.LifeCycle.{
  is_next, moves, moves-next, moves-columns, Evolves, nothing, moved, dropped,
}
use our_companion_network.Companions.Packs.Jobs.{State, Call, step, run}
use our_companion_network.Companions.Packs.Changes.{Change, SameOwners, evolves, adds}
use our_companion_network.Companions.Packs.Histories.{IsSound, step-Change, step-IsSound}

abbrev owned_by : ℕ → ℕ → List Companion → Bool
owned_by user companion cs = any (λ c. c.id == companion && c.owner_user_id == user) cs

-- A Companion has one owner.
abbrev pub HaveOneOwner : List Companion → Type 0
HaveOneOwner cs =
    (user other companion : ℕ)
    → owned_by user companion cs ≡ true
    → owned_by other companion cs ≡ true
    → user ≡ other

stored_before :
    (p q : AssetPack) → is_next p.status q.status ≡ true → is_stored q ≡ true → is_stored p ≡ true
stored_before p q n h = ground arith

no_more :
    (a b : Bool) (m n x y : ℕ)
    → (a ≡ true → b ≡ true)
    → m ≡ n
    → x ≤ y
    → (if a then m else 0) + x ≤ (if b then n else 0) + y
no_more a b m n x y h e k = ground (arith, h)

module _ (l : StorageLimits) (now user : ℕ) (cs cs' : List Companion)
    (same : SameOwners cs cs') where
  counted_before :
      (p q : AssetPack)
      → moves l now p q ≡ true
      → counts_for user cs' q ≡ true
      → counts_for user cs p ≡ true
  counted_before p q m h =
      let (i, c, b) = moves-columns l now p q m in
      let owned : owned_by user q.companion_id cs' ≡ true = ground arith in
      let stored : is_stored q ≡ true = ground arith in
      both (subst (λ k. owned_by user k cs ≡ true) c (sym (same user q.companion_id) ∙ owned))
        (stored_before p q (moves-next l now p q m) stored)
    where
      both : {a b : Bool} → a ≡ true → b ≡ true → (a && b) ≡ true
      both {a} {b} h k = ground arith

  Evolves-sum_bytes :
      {ps qs : List AssetPack}
      → Evolves l now ps qs
      → sum_bytes (counts_for user cs') qs ≤ sum_bytes (counts_for user cs) ps
  Evolves-sum_bytes nothing = ground arith
  Evolves-sum_bytes (moved {p} {q} {ps} {qs} m e) =
      let (i, c, b) = moves-columns l now p q m in
      no_more (counts_for user cs' q) (counts_for user cs p) q.total_bytes p.total_bytes
        (sum_bytes (counts_for user cs') qs) (sum_bytes (counts_for user cs) ps)
        (counted_before p q m) b (Evolves-sum_bytes e)
  Evolves-sum_bytes (dropped {p} {ps} {qs} d e) =
      one_less (counts_for user cs p) p.total_bytes (sum_bytes (counts_for user cs') qs)
        (sum_bytes (counts_for user cs) ps) (Evolves-sum_bytes e)
    where
      one_less : (b : Bool) (m x y : ℕ) → x ≤ y → x ≤ (if b then m else 0) + y
      one_less b m x y h = ground arith

one_owner_after : (cs cs' : List Companion) → SameOwners cs cs' → HaveOneOwner cs → HaveOneOwner cs'
one_owner_after cs cs' same h user other companion a b =
    h user other companion (sym (same user companion) ∙ a) (sym (same other companion) ∙ b)

owner_found :
    (user companion : ℕ) (db : Db) (c : Companion)
    → find_companion companion db ≡ some c
    → c.owner_user_id ≡ user
    → owned_by user companion db.companions ≡ true
owner_found user companion db c f o = go db.companions f
  where
    go :
        (cs : List Companion)
        → find_first (λ x. x.id == companion) cs ≡ some c
        → owned_by user companion cs ≡ true
    go [] e = absurd (ground arith)
    go (x ∷ xs) e = ground (arith, go xs)

within :
    (b : Bool) (bytes used most : ℕ)
    → (b ≡ true → used + bytes ≤ most)
    → used ≤ most
    → (if b then bytes else 0) + used ≤ most
within b bytes used most h k = ground (arith, h)

-- A statement leaves a user within the quota.
keeps_quota :
    (l : StorageLimits) (now user : ℕ) (flying : List ℕ) (db db' : Db)
    → HaveOneOwner db.companions
    → Change l now flying db db'
    → usage user db ≤ l.max_user_storage_bytes
    → (usage user db' ≤ l.max_user_storage_bytes) × HaveOneOwner db'.companions
unfolding usage
keeps_quota l now user flying db db' one (evolves e same _) h = (
  within_by (Evolves-sum_bytes l now user db.companions db'.companions same e) h,
  one_owner_after db.companions db'.companions same one,
)
  where
    within_by : {a b c : ℕ} → a ≤ b → b ≤ c → a ≤ c
    within_by {a} {b} {c} p q = omega arith
keeps_quota l now user flying db db' one (adds owner companion id v c fresh f o n q r w) h =
    rw (r, w)
      ((
        within (counts_for user db.companions (new_pack id companion now v)) v.total_bytes
            (sum_bytes (counts_for user db.companions) db.packs) l.max_user_storage_bytes
            (λ t.
              let same : owner ≡ user =
                one owner user companion (owner_found owner companion db c f o) (ground arith) in
              subst
                (λ u.
                  sum_bytes (counts_for u db.companions) db.packs + v.total_bytes
                  ≤ l.max_user_storage_bytes)
                same q)
            h,
        one,
      ))

-- The unfinished, active and superseded packs of a user never take more bytes than the limit,
-- whatever requests and clean-ups of the companion service do and in whatever order their
-- statements come, if they did not at first, each Companion has one owner, the identifiers were
-- distinct and the packs in flight were given up.
pub run-usage :
    (l : StorageLimits) (user : ℕ) (calls : List (ℕ × Call)) (st : State)
    → IsSound st
    → HaveOneOwner st.db.companions
    → usage user st.db ≤ l.max_user_storage_bytes
    → usage user (run l calls st).db ≤ l.max_user_storage_bytes
unfolding run
run-usage l user [] st s one h = h
run-usage l user ((now, call) ∷ calls) st s one h =
    let (k, o) =
      keeps_quota l now user st.in_flight st.db (step l now call st).db one
        (step-Change l now call st s) h in
    run-usage l user calls (step l now call st) (step-IsSound l now call st s) o k
