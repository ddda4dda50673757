-- ===== src/Institution/Sync/Replays.antt =====
-- An event is stored once (apps/institution-server/institution_server/sync.py).
use predixa_learn.Prelude.{
  ◌≡◌, refl, ap, ◌∙◌, Bool, true, false, not, Option, none, some, List, [], ◌∷◌, ◌++◌,
  if◌then◌else◌, first, first-append, Text, same, same_refl, eq_of_same, arith, subst,
}
use predixa_learn.Institution.Workers.State.{Answer, refused, answered}
use predixa_learn.Institution.Sync.State.{
  Kind, SyncWorker, Preview, Overlay, Event, Resource, Response, IdempotencyRecord, StorageKey,
  Server,
}
use predixa_learn.Institution.Sync.Checks.{check_event}
use predixa_learn.Institution.Sync.Ingest.{
  Step, and_next, evidence_key, find, put_file, create, update_document, document_of,
  upsert_document, existing_or, add_evidence, stored_or, add_analysis, add_preview, add_previews,
}
use predixa_learn.Institution.Sync.Events.{
  has_key, new_record, store_event, checked, replay, unless_seen, ingest_event,
}

-- The step adds no idempotency record.
abbrev Keeps : {A : Type 0} → Server → Step A → Type 0
Keeps s r = r.1.records ≡ s.records

and_next-Keeps :
    {A B : Type 0} (s : Server) (r : Step A) (next : A → Server → Step B)
    → Keeps s r
    → ((a : A) (s' : Server) → Keeps s' (next a s'))
    → Keeps s (and_next r next)
and_next-Keeps s (refused n code, s') next h k = h
and_next-Keeps s (answered a, s') next h k = k a s' ∙ h

create-Keeps :
    (w : SyncWorker) (k : Kind) (id : Text) (r : Resource) (s : Server)
    → Keeps s (create w k id r s)
unfolding create
create-Keeps w k id r s = ground arith

update_document-Keeps :
    (w : SyncWorker) (e : Event) (d : Resource) (s : Server) → Keeps s (update_document w e d s)
unfolding update_document
update_document-Keeps w e d s = ground arith

document-Keeps :
    (w : SyncWorker) (e : Event) (o : Option Resource) (s : Server) → Keeps s (document_of w e o s)
document-Keeps w e none s = create-Keeps w _ _ _ s
document-Keeps w e (some d) s = update_document-Keeps w e d s

existing-Keeps :
    (w : SyncWorker) (k : Kind) (id : Text) (r : Resource) (o : Option Resource) (s : Server)
    → Keeps s (existing_or w k id r o s)
existing-Keeps w k id r (some old) s = refl
existing-Keeps w k id r none s = and_next-Keeps s _ _ (create-Keeps w k id r s) λ a s'. refl

stored-Keeps :
    (w : SyncWorker) (k : Kind) (id : Text) (r : Resource) (key : StorageKey) (content : Text)
    (o : Option Resource) (s : Server)
    → Keeps s (stored_or w k id r key content o s)
unfolding put_file
stored-Keeps w k id r key content (some old) s = refl
stored-Keeps w k id r key content none s =
    and_next-Keeps s _ _ (create-Keeps w k id r (put_file key content s)) λ a s'. refl

module _ (sha256 : Text → Text) (w : SyncWorker) (e : Event) (d : Resource) where
  analysis-Keeps : (o : Option Overlay) (s : Server) → Keeps s (add_analysis sha256 w e d o s)
  analysis-Keeps none s = refl
  analysis-Keeps (some o) s =
      and_next-Keeps s _ _ (stored-Keeps w _ _ _ _ _ (find w _ _ s) s) λ a s'. refl

  preview-Keeps : (p : Preview) (s : Server) → Keeps s (add_preview sha256 w e d p s)
  unfolding add_preview
  preview-Keeps p s = stored-Keeps w _ _ _ _ _ (find w _ _ s) s

  previews-Keeps : (ps : List Preview) (s : Server) → Keeps s (add_previews sha256 w e d ps s)
  unfolding add_previews
  previews-Keeps [] s = refl
  previews-Keeps (p ∷ ps) s =
      and_next-Keeps s (add_preview sha256 w e d p s)
        (λ id s'. and_next (add_previews sha256 w e d ps s') λ ids s''. (answered (id ∷ ids), s''))
        (preview-Keeps p s)
        λ id s'.
          and_next-Keeps s' (add_previews sha256 w e d ps s')
            (λ ids s''. (answered (id ∷ ids), s'')) (previews-Keeps ps s') λ ids s''. refl

upsert-Keeps : (w : SyncWorker) (e : Event) (s : Server) → Keeps s (upsert_document w e s)
unfolding upsert_document
upsert-Keeps w e s = document-Keeps w e (find w _ e.resource_id s) s

evidence-Keeps :
    (w : SyncWorker) (e : Event) (d : Resource) (s : Server) → Keeps s (add_evidence w e d s)
unfolding add_evidence
evidence-Keeps w e d s = existing-Keeps w _ _ _ (find w _ _ s) s

-- What a step that ends with a record leaves: it refuses and adds none, or adds the one of its answer.
abbrev Records : (Response → IdempotencyRecord) → Server → Step Response → Type 0
Records f s (refused n code, s') = s'.records ≡ s.records
Records f s (answered r, s') = s'.records ≡ s.records ++ f r ∷ []

module _ (f : Response → IdempotencyRecord) where
  and_next-Records :
      {A : Type 0} (s : Server) (r : Step A) (next : A → Server → Step Response)
      → Keeps s r
      → ((a : A) (s' : Server) → Records f s' (next a s'))
      → Records f s (and_next r next)
  and_next-Records s (refused n code, s') next h k = h
  and_next-Records s (answered a, s') next h k = moved (next a s') (k a s')
    where
      moved : (r : Step Response) → Records f s' r → Records f s r
      moved (refused n code, s'') e = e ∙ h
      moved (answered b, s'') e = e ∙ ap (λ rs. rs ++ f b ∷ []) h

module _ (sha256 : Text → Text) (w : SyncWorker) (e : Event) where
  store-Records :
      (ps : List Preview) (s : Server)
      → Records (new_record sha256 w e) s (store_event sha256 w e ps s)
  unfolding store_event put_file
  store-Records ps s =
      and_next-Records (new_record sha256 w e) s
        (upsert_document w e (put_file (evidence_key w e) e.payload.result_json s)) _
        (upsert-Keeps w e (put_file (evidence_key w e) e.payload.result_json s))
        λ d s₁.
          and_next-Records (new_record sha256 w e) s₁ (add_evidence w e d s₁) _
            (evidence-Keeps w e d s₁)
            λ evidence s₂.
              and_next-Records (new_record sha256 w e) s₂
                (add_analysis sha256 w e d e.payload.analysis_overlay s₂) _
                (analysis-Keeps sha256 w e d e.payload.analysis_overlay s₂)
                λ analysis s₃.
                  and_next-Records (new_record sha256 w e) s₃ (add_previews sha256 w e d ps s₃) _
                    (previews-Keeps sha256 w e d ps s₃) λ ids s₄. refl

  -- The server has the record of an event and its response.
  record IsRecorded (r : Response) (s : Server) : Type 0 where
    stored : IdempotencyRecord
    there : first (has_key sha256 w e.idempotency_key) s.records ≡ some stored
    same_hash : stored.request_hash ≡ sha256 e.json
    same_body : replay sha256 w stored.response_body ≡ replay sha256 w r

  stored-IsRecorded :
      (ps : List Preview) (s s' : Server) (r : Response)
      → first (has_key sha256 w e.idempotency_key) s.records ≡ none
      → store_event sha256 w e ps s ≡ (answered r, s')
      → IsRecorded r s'
  unfolding first
  stored-IsRecorded ps s s' r new h = record {
    stored = new_record sha256 w e r;
    there =
        ap (first (has_key sha256 w e.idempotency_key))
          (subst (Records (new_record sha256 w e) s) h (store-Records ps s))
        ∙ first-append (has_key sha256 w e.idempotency_key) s.records (new_record sha256 w e r ∷ [])
            new
        ∙ simp (same_refl w.tenant_id, same_refl e.idempotency_key) refl;
    same_hash = refl;
    same_body = refl;
  }

response_of : Response → Step Response → Response
response_of r (refused n code, s) = r
response_of r (answered a, s) = a

module _ (sha256 : Text → Text) (w : SyncWorker) (e : Event) where
  seen-IsRecorded :
      (s s' : Server) (r : Response) (o : Option IdempotencyRecord)
      → first (has_key sha256 w e.idempotency_key) s.records ≡ o
      → unless_seen sha256 w e s o ≡ (answered r, s')
      → IsRecorded sha256 w e r s'
  unfolding response_of
  seen-IsRecorded s s' r none new h = passed (check_event sha256 e) h
    where
      passed :
          (a : Answer (List Preview))
          → checked sha256 w e s a ≡ (answered r, s')
          → IsRecorded sha256 w e r s'
      passed (refused n code) k = absurd (ground arith)
      passed (answered ps) k = stored-IsRecorded sha256 w e ps s s' r new k
  seen-IsRecorded s s' r (some stored) there h =
      branch (same stored.request_hash (sha256 e.json)) refl h
    where
      branch :
          (b : Bool)
          → same stored.request_hash (sha256 e.json) ≡ b
          → ◌≡◌ {A = Step Response}
              (if not b
                then (refused 409 "idempotency_conflict", s)
                else (answered (replay sha256 w stored.response_body), s))
              (answered r, s')
          → IsRecorded sha256 w e r s'
      branch false k l = absurd (ground arith)
      branch true k l = record {
        stored = stored;
        there =
            subst (λ x. first (has_key sha256 w e.idempotency_key) x.records ≡ some stored)
              (ap (λ x. x.1) l) there;
        same_hash = eq_of_same stored.request_hash (sha256 e.json) k;
        same_body = ap (λ x. replay sha256 w (response_of r x)) l;
      }

  -- An event that was accepted is stored for good: sent again, it changes nothing and gets its first
  -- answer, marked as replayed; and another event under its key whose hash differs is refused as a
  -- conflict and changes nothing.
  pub ingest_event_replays :
      (s s' : Server) (r : Response)
      → ingest_event sha256 w e s ≡ (answered r, s')
      → (ingest_event sha256 w e s' ≡ (answered (replay sha256 w r), s'))
        × ((e' : Event)
            → same e'.idempotency_key e.idempotency_key ≡ true
            → same (sha256 e.json) (sha256 e'.json) ≡ false
            → ingest_event sha256 w e' s' ≡ (refused 409 "idempotency_conflict", s'))
  unfolding ingest_event
  ingest_event_replays s s' r h =
      let k =
        seen-IsRecorded s s' r (first (has_key sha256 w e.idempotency_key) s.records) refl h in
      (again k, conflict k)
    where
      again :
          IsRecorded sha256 w e r s'
          → unless_seen sha256 w e s' (first (has_key sha256 w e.idempotency_key) s'.records)
            ≡ (answered (replay sha256 w r), s')
      again k =
          simp (k.there, k.same_hash, same_refl (sha256 e.json))
            (ap (λ b. (answered b, s')) k.same_body)

      conflict :
          IsRecorded sha256 w e r s'
          → (e' : Event) → same e'.idempotency_key e.idempotency_key ≡ true
          → same (sha256 e.json) (sha256 e'.json) ≡ false
          → unless_seen sha256 w e' s' (first (has_key sha256 w e'.idempotency_key) s'.records)
            ≡ (refused 409 "idempotency_conflict", s')
      conflict k e' same_key other =
          simp
            (eq_of_same e'.idempotency_key e.idempotency_key same_key, k.there, k.same_hash, other)
            refl
