-- ===== src/Institution/Workers/Spent.antt =====
-- A token that was used stays used
-- (apps/institution-server/institution_server/workers.py).
use predixa_learn.Prelude.{
  ℕ, ◌≡◌, ◌⊎◌, refl, ap, sym, subst, ◌∙◌, Bool, true, false, ◌&&◌, not, Option, none, some, List,
  [], ◌∷◌, if◌then◌else◌, arith, Text, Bool-cases, inl, inr, any, first, same, eq_of_same, leb,
}
use mathlib.Core.Option.{some-injective, none-ne-some}
use predixa_learn.Institution.Workers.State.{
  EnrollmentToken, Database, Library, WorkerDevice, Answer, update,
}
use predixa_learn.Institution.Workers.Devices.{
  Redemption, is_usable, find_token, use_token, enroll_new, enroll_with, enroll_key, enroll_worker,
  create_enrollment_token,
}
use predixa_learn.Institution.Workers.Steps.{
  Request, state_updated, token_created, worker_enrolled, source_staged, job_created, job_claimed,
  source_downloaded, artifact_uploaded, result_published, step, run,
}
use predixa_learn.Institution.Workers.Tokens.{step-tokens}

pub find_token_same :
    (lib : Library) (token : Text) (db db' : Database)
    → db'.tokens ≡ db.tokens
    → find_token lib token db' ≡ find_token lib token db
unfolding find_token
find_token_same lib token db db' e = ap (first (λ t. same t.token_hash (lib.sha256 token))) e

-- The row that is found under the digest was used.
abbrev IsUsed : Text → List EnrollmentToken → Type 0
IsUsed hash ts =
    (t : EnrollmentToken) × (first (λ x. same x.token_hash hash) ts ≡ some t)
    × (used : ℕ) × (t.used_at ≡ some used)

abbrev pub IsSpent : Library → Text → Database → Type 0
IsSpent lib token db =
    (t : EnrollmentToken) × (find_token lib token db ≡ some t)
    × (used : ℕ) × (t.used_at ≡ some used)

-- Using a token, this one or another
update-IsUsed :
    (hash other : Text) (now : ℕ) (ts : List EnrollmentToken)
    → IsUsed hash ts
    → IsUsed hash (update (λ x. same x.token_hash other) (λ x. record x { used_at = some now }) ts)
unfolding first update
update-IsUsed hash other now [] h = absurd (ground (arith, h.1))
update-IsUsed hash other now (x ∷ xs) (t, found, used, u) =
    elim (Bool-cases (same x.token_hash hash)) [
      | inl e ↦ here (same x.token_hash other) e (some-injective x t (simp e at found))
      | inr e ↦
          there (same x.token_hash other) e
            (update-IsUsed hash other now xs (t, simp e at found, used, u))
    ]
  where
    rest : List EnrollmentToken
    rest = update (λ x. same x.token_hash other) (λ x. record x { used_at = some now }) xs

    here :
        (b : Bool)
        → same x.token_hash hash ≡ true
        → x ≡ t
        → IsUsed hash ((if b then record x { used_at = some now } else x) ∷ rest)
    here true e k = (record x { used_at = some now }, simp e, now, refl)
    here false e k = (x, simp e, used, ap (λ (y : EnrollmentToken). y.used_at) k ∙ u)

    there :
        (b : Bool)
        → same x.token_hash hash ≡ false
        → IsUsed hash rest
        → IsUsed hash ((if b then record x { used_at = some now } else x) ∷ rest)
    there true e (s, f, n, v) = (s, simp e f, n, v)
    there false e (s, f, n, v) = (s, simp e f, n, v)

first-none :
    (hash : Text) (ts : List EnrollmentToken)
    → any (λ x. same x.token_hash hash) ts ≡ false
    → first (λ x. same x.token_hash hash) ts ≡ none
unfolding any first
first-none hash [] h = refl
first-none hash (x ∷ xs) h =
    let k : same x.token_hash hash ≡ false = ground (arith, h) in
    simp k (first-none hash xs (simp k at h))

-- A new token has another digest.
cons-IsUsed :
    (hash : Text) (x : EnrollmentToken) (ts : List EnrollmentToken)
    → any (λ y. same y.token_hash x.token_hash) ts ≡ false
    → IsUsed hash ts
    → IsUsed hash (x ∷ ts)
unfolding first
cons-IsUsed hash x ts fresh (t, found, used, u) = elim (Bool-cases (same x.token_hash hash)) [
  | inl e ↦ absurd (
      none-ne-some t (
        sym (
          first-none hash ts (
            subst (λ k. any (λ (y : EnrollmentToken). same y.token_hash k) ts ≡ false)
              (eq_of_same x.token_hash hash e) fresh))
        ∙ found))
  | inr e ↦ (t, simp e found, used, u)
]

created-IsSpent :
    (lib : Library) (token tenant new : Text) (minutes now : ℕ) (db : Database)
    → IsSpent lib token db
    → IsSpent lib token (create_enrollment_token lib tenant minutes new now db).0
unfolding create_enrollment_token find_token
created-IsSpent lib token tenant new minutes now db h =
    elim (Bool-cases (not (leb 1 minutes && leb minutes 60))) [
      | inl e ↦ simp e h
      | inr e ↦ elim (Bool-cases (any (λ t. same t.token_hash (lib.sha256 new)) db.tokens)) [
        | inl k ↦ simp (e, k) h
        | inr k ↦ simp (e, k) (cons-IsUsed (lib.sha256 token) _ db.tokens k h)
      ]
    ]

-- What an enrollment does to the tokens
abbrev Enrolled : ℕ → Database → Database × Answer WorkerDevice → Type 0
Enrolled now db r =
    (r.0.tokens ≡ db.tokens) ⊎ ((hash : Text) × (r.0.tokens ≡ (use_token hash now db).tokens))

enroll_new-Enrolled :
    (r : Redemption) (id key_hash : Text) (now : ℕ) (t : EnrollmentToken) (db : Database)
    (o : Option WorkerDevice)
    → Enrolled now db (enroll_new r id key_hash now t db o)
enroll_new-Enrolled r id key_hash now t db (some w) = inl refl
enroll_new-Enrolled r id key_hash now t db none = inr (t.token_hash, refl)

enroll_with-Enrolled :
    (r : Redemption) (id key_hash : Text) (now : ℕ) (db : Database) (o : Option EnrollmentToken)
    → Enrolled now db (enroll_with r id key_hash now db o)
enroll_with-Enrolled r id key_hash now db none = inl refl
enroll_with-Enrolled r id key_hash now db (some t) = elim (Bool-cases (is_usable now t)) [
  | inl e ↦ simp e (enroll_new-Enrolled r id key_hash now t db _)
  | inr e ↦ simp e (inl refl)
]

enroll-Enrolled :
    (lib : Library) (r : Redemption) (id : Text) (now : ℕ) (db : Database)
    → Enrolled now db (enroll_worker lib r id now db)
unfolding enroll_worker
enroll-Enrolled lib r id now db = keyed r.public_bytes
  where
    keyed : (o : Option Text) → Enrolled now db (enroll_key lib r id now db o)
    keyed none = inl refl
    keyed (some bytes) = enroll_with-Enrolled r id (lib.sha256 bytes) now db _

kept-IsSpent :
    (lib : Library) (token : Text) (db db' : Database)
    → db'.tokens ≡ db.tokens
    → IsSpent lib token db
    → IsSpent lib token db'
kept-IsSpent lib token db db' e (t, found, used, u) =
    (t, find_token_same lib token db db' e ∙ found, used, u)

used-IsSpent :
    (lib : Library) (token hash : Text) (now : ℕ) (db : Database)
    → IsSpent lib token db
    → IsSpent lib token (use_token hash now db)
unfolding find_token use_token
used-IsSpent lib token hash now db h = update-IsUsed (lib.sha256 token) hash now db.tokens h

step-IsSpent :
    (lib : Library) (token : Text) (now : ℕ) (r : Request) (db : Database)
    → IsSpent lib token db
    → IsSpent lib token (step lib now r db)
unfolding step
step-IsSpent lib token now (token_created tenant minutes new) db h =
    created-IsSpent lib token tenant new minutes now db h
step-IsSpent lib token now (worker_enrolled r id) db h = elim (enroll-Enrolled lib r id now db) [
  | inl e ↦ kept-IsSpent lib token db _ e h
  | inr (hash, e) ↦
      kept-IsSpent lib token (use_token hash now db) _ e (used-IsSpent lib token hash now db h)
]
step-IsSpent lib token now (state_updated a b c d) db h =
    kept-IsSpent lib token db _ (step-tokens lib now (state_updated a b c d) db refl) h
step-IsSpent lib token now (source_staged a b c d e) db h =
    kept-IsSpent lib token db _ (step-tokens lib now (source_staged a b c d e) db refl) h
step-IsSpent lib token now (job_created a b c) db h =
    kept-IsSpent lib token db _ (step-tokens lib now (job_created a b c) db refl) h
step-IsSpent lib token now (job_claimed a b c) db h =
    kept-IsSpent lib token db _ (step-tokens lib now (job_claimed a b c) db refl) h
step-IsSpent lib token now (source_downloaded a b c) db h =
    kept-IsSpent lib token db _ (step-tokens lib now (source_downloaded a b c) db refl) h
step-IsSpent lib token now (artifact_uploaded a b c d e) db h =
    kept-IsSpent lib token db _ (step-tokens lib now (artifact_uploaded a b c d e) db refl) h
step-IsSpent lib token now (result_published a b c d e) db h =
    kept-IsSpent lib token db _ (step-tokens lib now (result_published a b c d e) db refl) h

pub run-IsSpent :
    (lib : Library) (token : Text) (rs : List (ℕ × Request)) (db : Database)
    → IsSpent lib token db
    → IsSpent lib token (run lib rs db)
unfolding run
run-IsSpent lib token [] db h = h
run-IsSpent lib token ((now, r) ∷ rs) db h =
    run-IsSpent lib token rs (step lib now r db) (step-IsSpent lib token now r db h)
