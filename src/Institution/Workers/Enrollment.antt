-- ===== src/Institution/Workers/Enrollment.antt =====
-- Enrollment tokens are redeemed once
-- (apps/institution-server/institution_server/workers.py, `enroll_worker`).
use predixa_learn.Prelude.{
  List, first_holds, ℕ, ◌≡◌, ◌⊎◌, refl, ◌≢◌, sym, ap, ◌∙◌, Bool, true, ◌&&◌, Option, none, some,
  arith, Text, Bool-cases, inl, inr, same, eq_of_same,
}
use predixa_learn.Institution.Workers.State.{
  EnrollmentToken, Database, Library, WorkerDevice, Answer, refused, answered,
}
use predixa_learn.Institution.Workers.Devices.{
  Redemption, is_usable, find_token, use_token, enroll_new, enroll_with, enroll_key, enroll_worker,
}
use predixa_learn.Institution.Workers.Rows.{first-update}
use predixa_learn.Institution.Workers.Steps.{Request, run}
use predixa_learn.Institution.Workers.Spent.{run-IsSpent, find_token_same}

-- Redeeming a token that was used already.
used_again :
    (lib : Library) (r : Redemption) (id : Text) (now : ℕ) (db : Database) (t : EnrollmentToken)
    (used : ℕ)
    → find_token lib r.enrollment_token db ≡ some t
    → t.used_at ≡ some used
    → (enroll_worker lib r id now db ≡ (db, refused 422 "invalid_device_public_key"))
      ⊎ (enroll_worker lib r id now db ≡ (db, refused 403 "invalid_enrollment"))
unfolding enroll_worker
used_again lib r id now db t used found u = keyed r.public_bytes
  where
    keyed :
        (o : Option Text)
        → (enroll_key lib r id now db o ≡ (db, refused 422 "invalid_device_public_key"))
          ⊎ (enroll_key lib r id now db o ≡ (db, refused 403 "invalid_enrollment"))
    keyed none = inl refl
    keyed (some bytes) = inr (ap (enroll_with r id (lib.sha256 bytes) now db) found ∙ simp u)

and_true : (b : Bool) → b ≡ (b && true)
and_true b = ground arith

after_use :
    (lib : Library) (token : Text) (now : ℕ) (db : Database) (t : EnrollmentToken)
    → find_token lib token db ≡ some t
    → find_token lib token (use_token t.token_hash now db) ≡ some (record t { used_at = some now })
unfolding find_token use_token
after_use lib token now db t found =
    first-update (λ x. same x.token_hash (lib.sha256 token)) (λ x. same x.token_hash t.token_hash)
      (λ x. record x { used_at = some now }) (λ x. true) db.tokens t (λ x. refl) picks refl found
  where
    hash : t.token_hash ≡ lib.sha256 token
    hash = eq_of_same t.token_hash (lib.sha256 token) (
        first_holds (λ (x : EnrollmentToken). same x.token_hash (lib.sha256 token)) db.tokens t
          found)

    picks :
        (y : EnrollmentToken)
        → same y.token_hash t.token_hash ≡ (same y.token_hash (lib.sha256 token) && true)
    picks y = ap (same y.token_hash) hash ∙ and_true (same y.token_hash (lib.sha256 token))

-- What a redemption that was accepted did to the tokens.
new_tokens :
    (r : Redemption) (id key_hash : Text) (now : ℕ) (t : EnrollmentToken) (db db' : Database)
    (w : WorkerDevice) (o : Option WorkerDevice)
    → enroll_new r id key_hash now t db o ≡ (db', answered w)
    → db'.tokens ≡ (use_token t.token_hash now db).tokens
new_tokens r id key_hash now t db db' w (some _) h = absurd (ground arith)
new_tokens r id key_hash now t db db' w none h =
    sym (ap (λ (x : Database × Answer WorkerDevice). x.0.tokens) h)

abbrev Redeemed : Library → Redemption → ℕ → Database → Database → Type 0
Redeemed lib r now db db' =
    (t : EnrollmentToken) × (find_token lib r.enrollment_token db ≡ some t)
    × (is_usable now t ≡ true)
    × (db'.tokens ≡ (use_token t.token_hash now db).tokens)

with_tokens :
    (lib : Library) (r : Redemption) (id key_hash : Text) (now : ℕ) (db db' : Database)
    (w : WorkerDevice) (o : Option EnrollmentToken)
    → find_token lib r.enrollment_token db ≡ o
    → enroll_with r id key_hash now db o ≡ (db', answered w)
    → Redeemed lib r now db db'
with_tokens lib r id key_hash now db db' w none found h = absurd (ground arith)
with_tokens lib r id key_hash now db db' w (some t) found h = elim (Bool-cases (is_usable now t)) [
  | inl e ↦ (t, found, e, new_tokens r id key_hash now t db db' w _ (simp e at h))
  | inr e ↦ absurd (refusal_differs (simp e at h))
]
  where
    before : Database × Answer WorkerDevice
    before = (db, refused 403 "invalid_enrollment")

    refusal_differs : before ≢ (db', answered w)
    refusal_differs h' = ground arith

enrolled-Redeemed :
    (lib : Library) (r : Redemption) (id : Text) (now : ℕ) (db db' : Database) (w : WorkerDevice)
    → enroll_worker lib r id now db ≡ (db', answered w)
    → Redeemed lib r now db db'
unfolding enroll_worker
enrolled-Redeemed lib r id now db db' w h = keyed r.public_bytes h
  where
    keyed :
        (o : Option Text)
        → enroll_key lib r id now db o ≡ (db', answered w)
        → Redeemed lib r now db db'
    keyed none h' = absurd (ground arith)
    keyed (some bytes) h' = with_tokens lib r id (lib.sha256 bytes) now db db' w _ refl h'

found_again :
    (lib : Library) (r r' : Redemption) (now : ℕ) (db db' : Database)
    → r'.enrollment_token ≡ r.enrollment_token
    → (done : Redeemed lib r now db db')
    → find_token lib r'.enrollment_token db' ≡ some (record done.0 { used_at = some now })
found_again lib r r' now db db' e done =
    ap (λ token. find_token lib token db') e
    ∙ find_token_same lib r.enrollment_token (use_token done.0.token_hash now db) db' done.3
    ∙ after_use lib r.enrollment_token now db done.0 done.1

-- An accepted enrollment found its token unused and not expired. From then on, whatever requests come to
-- the handlers of workers.py, no redemption of the same token is accepted, whatever its other fields, its
-- time and the new device: each is refused and changes nothing.
pub redeemed_once :
    (lib : Library) (r : Redemption) (id : Text) (now : ℕ) (db db' : Database) (w : WorkerDevice)
    → enroll_worker lib r id now db ≡ (db', answered w)
    → ((t : EnrollmentToken) × (find_token lib r.enrollment_token db ≡ some t)
        × (is_usable now t ≡ true))
      × ((rs : List (ℕ × Request)) (r' : Redemption) (id' : Text) (now' : ℕ)
          → r'.enrollment_token ≡ r.enrollment_token
          → let later = run lib rs db' in
            (enroll_worker lib r' id' now' later ≡ (later, refused 422 "invalid_device_public_key"))
            ⊎ (enroll_worker lib r' id' now' later ≡ (later, refused 403 "invalid_enrollment")))
redeemed_once lib r id now db db' w h =
    let done = enrolled-Redeemed lib r id now db db' w h in
    (
      (done.0, done.1, done.2),
      λ rs r' id' now' same_token.
          let spent = run-IsSpent lib r'.enrollment_token rs db' (
            record done.0 { used_at = some now },
            found_again lib r r' now db db' same_token done,
            now,
            refl,
          ) in
          used_again lib r' id' now' (run lib rs db') spent.0 spent.2 spent.1 spent.3,
    )
