-- ===== src/Companions/Packs/Verification.antt =====
-- src/companion/companion.service.ts: completeAssetPack, with the verification of the uploaded
-- files. The object storage (src/storage/storage.service.ts, over S3) is a parameter. An object is
-- named by what it is of; its key is the prefix of the pack with the identifier or the path. After
-- an error the objects are not followed further.
use our_companion_network.Base.{
  ℕ, ◌≡◌, ◌≢◌, refl, sym, ap, subst, Bool, true, false, not, ◌&&◌, Option, none, some, List, [],
  ◌∷◌, ◌==◌, arith, any, all, where_, find_first_sound, any_of_find_first, Code, Error, unavailable,
  conflict, internal, bad_request, Result, ok, err, guard, or_fail, ◌>>=◌, ◌>>◌, >>=-eq-ok,
  Result-cases, Bool-cases, Option-cases, inl, inr,
}
use our_companion_network.Events.{Publications}
use our_companion_network.Visit.{AssetPack, PackStatus, AssetFile, Db}
use our_companion_network.Visit.Snapshots.{find_pack}
use our_companion_network.Companions.{require_owned_pack, assert_companion_mutation_allowed}
use our_companion_network.Companions.Packs.Steps.{begin_completion-eq-ok}
use our_companion_network.Companions.Packs.{
  StorageLimits, is_status, claim_pack, assert_upload_session_current, require_storage,
}
use our_companion_network.Companions.Packs.Uploads.{
  Completion, complete, to_verify, begin_completion, fail_completion, retry_completion,
}
use our_companion_network.Companions.Packs.Activation.{finish_completion}
use Prim.Native.String.{String}
use text.Mathlib.Text.{◌==◌ as ◌==ₛ◌}

pub data ObjectKey : Type 0 where
  staging_object published_object : (file : ℕ) → ObjectKey
  manifest_object : (pack : ℕ) → ObjectKey

-- ObjectDigestMetadata
pub record Inspected : Type 0 where
  pub size_bytes : ℕ
  pub mime_type : Option String
  pub sha256 : ℕ
  pub etag : Option ℕ

-- inspectObjectSha256, copyVerifiedObject and putManifest
pub record Storage (Store : Type 0) : Type 0 where
  pub inspect : ObjectKey → (max_bytes : ℕ) → Store → Result (Option Inspected)
  pub copy :
      (source destination : ObjectKey) → (etag : ℕ) → String → (sha256 : ℕ) → Store → Result Store
  pub put_manifest : ObjectKey → Store → Result Store

abbrev has_digest : AssetFile → Inspected → Bool
has_digest f i =
    i.size_bytes == f.size_bytes
    && elim i.mime_type [ none ↦ false | some m ↦ m ==ₛ f.mime_type ]
    && i.sha256 == f.sha256

abbrev has_found : AssetFile → Option Inspected → Bool
has_found f none = false
has_found f (some i) = has_digest f i

-- A completion that has nothing to verify found the pack active.
begin_completion-complete :
    (l : StorageLimits) (enabled : Bool) (user pack now : ℕ) (db db' : Db)
    → begin_completion l enabled user pack now db ≡ ok (db', complete)
    → any (λ p. p.id == pack && is_status PackStatus.active p) db.packs ≡ true
unfolding begin_completion require_owned_pack claim_pack assert_upload_session_current
    require_storage assert_companion_mutation_allowed
begin_completion-complete l enabled user pack now db db' h =
    elim (Option-cases (find_pack pack db)) [
      | inl e ↦ absurd (ground arith)
      | inr (p, e) ↦
          let same = find_first_sound (λ q. q.id == pack) db.packs p e in
          any_of_find_first (λ q. q.id == pack) (λ q. q.id == pack && is_status PackStatus.active q)
            db.packs p e (ground arith)
    ]

begin_completion-asset_files :
    (l : StorageLimits) (user pack now : ℕ) (db db' : Db) (c : Completion)
    → begin_completion l true user pack now db ≡ ok (db', c)
    → db'.asset_files ≡ db.asset_files
begin_completion-asset_files l user pack now db db' c h =
    elim (begin_completion-eq-ok l user pack now db db' c h) [
      | inl e ↦ rw e refl
      | inr e ↦ rw e refl
    ]

module _ {Store : Type 0} (storage : Storage Store) where
  unfoldable pub verify_file : AssetFile → Store → Result Store
  verify_file f s = storage.inspect (staging_object f.id) f.size_bytes s >>= λ staged.
      or_fail staged (internal Code.asset_pack_file_missing) >>= λ i.
      guard (has_digest f i) (internal Code.asset_integrity_failed)
      >> or_fail i.etag (internal Code.asset_storage_source_etag_missing)
      >>= λ etag.
          storage.copy (staging_object f.id) (published_object f.id) etag f.mime_type f.sha256 s
          >>= λ s'. storage.inspect (published_object f.id) f.size_bytes s' >>= λ found.
              guard (has_found f found) (internal Code.asset_integrity_failed) >> ok s'

  unfoldable pub verify_files : List AssetFile → Store → Result Store
  verify_files [] s = ok s
  verify_files (f ∷ fs) s = verify_file f s >>= verify_files fs

  abbrev is_in_answer : AssetFile → Result (Option Inspected) → Bool
  is_in_answer f (ok (some i)) =
      i.size_bytes == f.size_bytes
      && i.sha256 == f.sha256
      && elim i.mime_type [ none ↦ false | some m ↦ m ==ₛ f.mime_type ]
  is_in_answer f (ok none) = false
  is_in_answer f (err _) = false

  -- The object of a file is there, with its size, type and hash.
  abbrev pub is_published : Store → AssetFile → Bool
  is_published s f = is_in_answer f (storage.inspect (published_object f.id) f.size_bytes s)

  -- A copy, and the writing of a manifest, leave the objects of other keys.
  abbrev pub IsFramed : Type 0
  IsFramed =
      ((source destination key : ObjectKey) (etag : ℕ) (mime : String) (sha256 most : ℕ)
          (s s' : Store)
        → key ≢ destination
        → storage.copy source destination etag mime sha256 s ≡ ok s'
        → storage.inspect key most s' ≡ storage.inspect key most s)
      × ((destination key : ObjectKey) (most : ℕ) (s s' : Store)
          → key ≢ destination
          → storage.put_manifest destination s ≡ ok s'
          → storage.inspect key most s' ≡ storage.inspect key most s)

  verify_file-eq-ok :
      (f : AssetFile) (s s' : Store)
      → verify_file f s ≡ ok s'
      → (etag : ℕ) × (storage.copy
            (staging_object f.id)
            (published_object f.id)
            etag
            f.mime_type
            f.sha256
            s
          ≡ ok s')
        × (is_published s' f ≡ true)
  unfolding verify_file
  verify_file-eq-ok f s s' h =
      elim (Result-cases (storage.inspect (staging_object f.id) f.size_bytes s)) [
        | inr (_, e) ↦ absurd (ground arith)
        | inl (none, e) ↦ absurd (ground arith)
        | inl (some i, e) ↦ elim (Option-cases i.etag) [
          | inl n ↦ absurd (ground arith)
          | inr (etag, n) ↦
              elim (Result-cases (
                storage.copy (staging_object f.id) (published_object f.id) etag f.mime_type f.sha256
                  s)) [
                    | inr (_, c) ↦ absurd (ground arith)
                    | inl (t, c) ↦
                        elim (Result-cases
                          (storage.inspect (published_object f.id) f.size_bytes t)) [
                            | inr (_, d) ↦ absurd (ground arith)
                            | inl (found, d) ↦ (etag, ground arith, ground arith)
                          ]
                  ]
        ]
      ]

  other_kept :
      (f g : AssetFile) (s s' : Store)
      → IsFramed
      → (g.id == f.id) ≡ false
      → verify_file f s ≡ ok s'
      → is_published s g ≡ true
      → is_published s' g ≡ true
  other_kept f g s s' frame n h p =
      let (etag, c, _) = verify_file-eq-ok f s s' h in
      subst (λ r. is_in_answer g r ≡ true)
        (sym (
          frame.0 (staging_object f.id) (published_object f.id) (published_object g.id) etag
            f.mime_type f.sha256 g.size_bytes s s' (apart g.id f.id n) c))
        p
    where
      id_of : ObjectKey → ℕ
      id_of (staging_object i) = i
      id_of (published_object i) = i
      id_of (manifest_object i) = i

      apart : (i j : ℕ) → (i == j) ≡ false → published_object i ≢ published_object j
      apart i j n e = differ i j n (ap id_of e)
        where
          differ : (i j : ℕ) → (i == j) ≡ false → i ≡ j → ⊥
          differ i j n e = ground arith

  abbrev pub are_distinct_files : List AssetFile → Bool
  are_distinct_files [] = true
  are_distinct_files (f ∷ fs) = not (any (λ g. g.id == f.id) fs) && are_distinct_files fs

  keeps_published :
      (g : AssetFile) (fs : List AssetFile) (s s' : Store)
      → IsFramed
      → any (λ f. f.id == g.id) fs ≡ false
      → verify_files fs s ≡ ok s'
      → is_published s g ≡ true
      → is_published s' g ≡ true
  unfolding verify_files
  keeps_published g [] s s' frame n h p = subst (λ t. is_published t g ≡ true) (same s s' h) p
    where
      same : (s s' : Store) → ok s ≡ ok s' → s ≡ s'
      same s s' h = cc
  keeps_published g (f ∷ fs) s s' frame n h p =
      let (t, a, b) = >>=-eq-ok (verify_file f s) (verify_files fs) h in
      keeps_published g fs t s' frame (ground arith) b
        (other_kept f g s t frame (turned g.id f.id (ground arith)) a p)
    where
      turned : (i j : ℕ) → (j == i) ≡ false → (i == j) ≡ false
      turned i j h = ground arith

  verify_files_publishes :
      (fs : List AssetFile) (s s' : Store)
      → IsFramed
      → are_distinct_files fs ≡ true
      → verify_files fs s ≡ ok s'
      → all (is_published s') fs ≡ true
  unfolding verify_files
  verify_files_publishes [] s s' frame d h = refl
  verify_files_publishes (f ∷ fs) s s' frame d h =
      let (t, a, b) = >>=-eq-ok (verify_file f s) (verify_files fs) h in
      let (_, _, p) = verify_file-eq-ok f s t a in
      both (keeps_published f fs t s' frame (ground arith) b p)
        (verify_files_publishes fs t s' frame (ground arith) b)
    where
      both : {a b : Bool} → a ≡ true → b ≡ true → (a && b) ≡ true
      both {a} {b} h k = ground arith

  -- `check_manifest` is the second validateManifest.
  unfoldable pub verify_pack :
      (AssetPack → Result (Unit {0})) → AssetPack → List AssetFile → Store → Result Store
  verify_pack check_manifest started files s = verify_files files s >>= λ s'.
      check_manifest started >> storage.put_manifest (manifest_object started.id) s'

  -- The `catch`: what is written
  abbrev after_failure : ℕ → (now : ℕ) → Error → Db → Db
  after_failure pack now (unavailable _) db = db
  after_failure pack now (conflict _) db = db
  after_failure pack now (internal Code.asset_integrity_failed) db = fail_completion pack now db
  after_failure pack now _ db = retry_completion pack now db

  -- and what is thrown
  abbrev thrown : Error → Error
  thrown (unavailable code) = unavailable code
  thrown (conflict code) = conflict code
  thrown (internal Code.asset_integrity_failed) = bad_request Code.asset_integrity_failed
  thrown _ = unavailable Code.asset_verification_retryable

  abbrev finished :
      ℕ → (now : ℕ) → Db → Result (Store × Db × Publications) → Db × Result (Store × Publications)
  finished pack now db (ok (s, db', ps)) = (db', ok (s, ps))
  finished pack now db (err e) = (after_failure pack now e db, err (thrown e))

  abbrev files_of : ℕ → Db → List AssetFile
  files_of pack db = where_ (λ f. f.asset_pack_id == pack) db.asset_files

  abbrev completed :
      (AssetPack → Result (Unit {0}))
      → ℕ
      → ℕ
      → (now : ℕ) → Store
      → Db
      → Result (Db × Completion)
      → Db × Result (Store × Publications)
  completed check_manifest user pack now s db (err e) = (db, err e)
  completed check_manifest user pack now s db (ok (db', complete)) = (db', ok (s, []))
  completed check_manifest user pack now s db (ok (db', to_verify started)) =
      finished pack now db' (
        verify_pack check_manifest started (files_of pack db') s >>= λ s'.
        finish_completion user started now db' db' >>= λ (db'', ps). ok (s', db'', ps))

  -- `completeAssetPack`: the database, also after an error.
  unfoldable pub complete_asset_pack :
      (AssetPack → Result (Unit {0}))
      → StorageLimits
      → (uploads_enabled : Bool) → ℕ
      → ℕ
      → (now : ℕ) → Store
      → Db
      → Db × Result (Store × Publications)
  complete_asset_pack check_manifest l enabled user pack now s db =
      completed check_manifest user pack now s db (begin_completion l enabled user pack now db)

  distinct_where :
      (pack : ℕ) (fs : List AssetFile)
      → are_distinct_files fs ≡ true
      → are_distinct_files (where_ (λ f. f.asset_pack_id == pack) fs) ≡ true
  distinct_where pack [] h = refl
  distinct_where pack (f ∷ fs) h = elim (Bool-cases (f.asset_pack_id == pack)) [
    | inl e ↦ rw e (both (fewer f.id fs (ground arith)) (distinct_where pack fs (ground arith)))
    | inr e ↦ rw e (distinct_where pack fs (ground arith))
  ]
    where
      both : {a b : Bool} → a ≡ false → b ≡ true → (not a && b) ≡ true
      both {a} {b} h k = ground arith

      fewer :
          (i : ℕ) (fs : List AssetFile)
          → any (λ g. g.id == i) fs ≡ false
          → any (λ g. g.id == i) (where_ (λ f. f.asset_pack_id == pack) fs) ≡ false
      fewer i [] h = refl
      fewer i (g ∷ gs) h = ground (arith, fewer i gs)

  put_manifest_keeps :
      (pack : ℕ) (fs : List AssetFile) (s s' : Store)
      → IsFramed
      → storage.put_manifest (manifest_object pack) s ≡ ok s'
      → all (is_published s) fs ≡ true
      → all (is_published s') fs ≡ true
  put_manifest_keeps pack [] s s' frame h p = refl
  put_manifest_keeps pack (f ∷ fs) s s' frame h p =
      both
        (subst (λ r. is_in_answer f r ≡ true)
          (sym (
            frame.1 (manifest_object pack) (published_object f.id) f.size_bytes s s'
              (λ e. apart (ap is_manifest e)) h))
          (left (is_published s f) _ p))
        (put_manifest_keeps pack fs s s' frame h (right (is_published s f) _ p))
    where
      both : {a b : Bool} → a ≡ true → b ≡ true → (a && b) ≡ true
      both {a} {b} h k = ground arith

      left : (a b : Bool) → (a && b) ≡ true → a ≡ true
      left a b h = ground arith

      right : (a b : Bool) → (a && b) ≡ true → b ≡ true
      right a b h = ground arith

      is_manifest : ObjectKey → Bool
      is_manifest (manifest_object _) = true
      is_manifest _ = false

      apart : false ≡ true → ⊥
      apart e = ground arith

  verify_pack_publishes :
      (check_manifest : AssetPack → Result (Unit {0})) (started : AssetPack) (fs : List AssetFile)
      (s s' : Store)
      → IsFramed
      → are_distinct_files fs ≡ true
      → verify_pack check_manifest started fs s ≡ ok s'
      → all (is_published s') fs ≡ true
  unfolding verify_pack
  verify_pack_publishes check_manifest started fs s s' frame d h =
      let (t, a, b) = >>=-eq-ok (verify_files fs s) _ h in
      let (_, _, c) = >>=-eq-ok (check_manifest started) _ b in
      put_manifest_keeps started.id fs t s' frame c (verify_files_publishes fs s t frame d a)

  finished_store :
      (pack now : ℕ) (db db' : Db) (s' : Store) (ps : Publications)
      (r : Result (Store × Db × Publications))
      → finished pack now db r ≡ (db', ok (s', ps))
      → (d : Db) × (qs : Publications) × (r ≡ ok (s', d, qs))
  finished_store pack now db db' s' ps (ok (t, d, qs)) h =
      (d, qs, same t s' qs ps (ap (λ r. r.1) h))
    where
      relabel :
          Db → Publications → Result (Store × Publications) → Result (Store × Db × Publications)
      relabel d qs (ok (u, _)) = ok (u, d, qs)
      relabel d qs (err e) = err e

      same :
          (t s' : Store) (qs ps : Publications)
          → ◌≡◌ {A = Result (Store × Publications)} (ok (t, qs)) (ok (s', ps))
          → ◌≡◌ {A = Result (Store × Db × Publications)} (ok (t, d, qs)) (ok (s', d, qs))
      same t s' qs ps h = ap (relabel d qs) h
  finished_store pack now db db' s' ps (err e) h = absurd (never (thrown e) (ap (λ r. r.1) h))
    where
      never : (e : Error) → ◌≡◌ {A = Result (Store × Publications)} (err e) (ok (s', ps)) → ⊥
      never e h = cc

  completed_publishes :
      (check_manifest : AssetPack → Result (Unit {0})) (l : StorageLimits) (user pack now : ℕ)
      (s s' : Store) (db db' : Db) (ps : Publications) (r : Result (Db × Completion))
      → IsFramed
      → are_distinct_files db.asset_files ≡ true
      → any (λ p. p.id == pack && is_status PackStatus.active p) db.packs ≡ false
      → begin_completion l true user pack now db ≡ r
      → completed check_manifest user pack now s db r ≡ (db', ok (s', ps))
      → all (is_published s') (files_of pack db) ≡ true
  completed_publishes check l user pack now s s' db db' ps (err e) frame d n b h =
      absurd (never e (ap (λ r. r.1) h))
    where
      never : (e : Error) → ◌≡◌ {A = Result (Store × Publications)} (err e) (ok (s', ps)) → ⊥
      never e h = cc
  completed_publishes check l user pack now s s' db db' ps (ok (db1, complete)) frame d n b h =
      absurd (clash _ (begin_completion-complete l true user pack now db db1 b) n)
    where
      clash : (b : Bool) → b ≡ true → b ≡ false → ⊥
      clash b h k = ground arith
  completed_publishes check l user pack now s s' db db' ps (ok (db1, to_verify started)) frame d n b
        h =
      let (d1, qs, e) = finished_store pack now db1 db' s' ps _ h in
      let (t, v, w) = >>=-eq-ok (verify_pack check started (files_of pack db1) s) _ e in
      let (r, _, x) = >>=-eq-ok (finish_completion user started now db1 db1) _ w in
      let kept = begin_completion-asset_files l user pack now db db1 (to_verify started) b in
      subst (λ u. all (is_published u) (files_of pack db) ≡ true) (same t s' r d1 qs x)
        (verify_pack_publishes check started (files_of pack db) s t frame
          (distinct_where pack db.asset_files d)
          (subst
            (λ fs. verify_pack check started (where_ (λ f. f.asset_pack_id == pack) fs) s ≡ ok t)
            kept v))
    where
      same :
          (t s' : Store) (r : Db × Publications) (d1 : Db) (qs : Publications)
          → ◌≡◌ {A = Result (Store × Db × Publications)} (ok (t, r.0, r.1)) (ok (s', d1, qs))
          → t ≡ s'
      same t s' r d1 qs h = cc

  -- Where a completion of a pack that was not active succeeds, the object of each of its files is
  -- published with the size, the type and the hash of the manifest, if a copy, and the writing of a
  -- manifest, leave the objects of other keys, and the files have distinct identifiers.
  pub complete_asset_pack_publishes :
      (check_manifest : AssetPack → Result (Unit {0})) (l : StorageLimits) (user pack now : ℕ)
      (s s' : Store) (db db' : Db) (ps : Publications)
      → IsFramed
      → are_distinct_files db.asset_files ≡ true
      → any (λ p. p.id == pack && is_status PackStatus.active p) db.packs ≡ false
      → complete_asset_pack check_manifest l true user pack now s db ≡ (db', ok (s', ps))
      → all (is_published s') (files_of pack db) ≡ true
  unfolding complete_asset_pack
  complete_asset_pack_publishes check l user pack now s s' db db' ps frame d n h =
      completed_publishes check l user pack now s s' db db' ps
        (begin_completion l true user pack now db) frame d n refl h
