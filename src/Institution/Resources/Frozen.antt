-- ===== src/Institution/Resources/Frozen.antt =====
-- Published versions stay as they were published
-- (apps/institution-server/institution_server/service.py).
use predixa_learn.Prelude.{
  if◌then◌else◌, ℕ, ◌≤◌, ◌<◌, ◌≡◌, refl, ap, ◌∙◌, Bool, true, false, not, ◌&&◌, ◌||◌, Option, List,
  [], ◌∷◌, Text, arith, Bool-cases, inl, inr,
}
use predixa_learn.Institution.Resources.Rules.{is_immutable_type}
use predixa_learn.Institution.Workers.State.{answered}
use predixa_learn.Institution.Resources.Rules.{
  ResourceType, Status, draft, published, superseded, is_publishable, may_follow,
}
use predixa_learn.Institution.Resources.Changes.{
  ResourceCreate, new_resource, create, Resource, ResourcePatch, is_draft, is_match, is_barred,
  apply_patch, is_locked, patch, apply_transition, transition, Change, patched, moved, result_or,
  apply_change, apply_all,
}

-- How far a version has come: a draft, published, superseded, retired or anything else.
abbrev pub stage : Status → ℕ
stage draft = 0
stage published = 1
stage superseded = 2
stage _ = 3

-- The fields that a patch may set, but for the status.
abbrev pub SameContent : Resource → Resource → Type 0
SameContent r r' =
    (r'.title ≡ r.title)
    × (r'.payload ≡ r.payload)
    × (r'.search_text ≡ r.search_text)
    × (r'.access_classification ≡ r.access_classification)

-- What later changes keep of a resource.
pub record Keeps (r r' : Resource) : Type 0 where
  pub same_type : r'.resource_type ≡ r.resource_type
  pub later : r.version ≤ r'.version
  pub forward : is_publishable r.resource_type ≡ true → stage r.status ≤ stage r'.status
  pub frozen : is_publishable r.resource_type ≡ true → is_draft r.status ≡ false → SameContent r r'
  pub held : r.immutable ≡ true → (r'.immutable ≡ true) × SameContent r r'

Keeps-refl : (r : Resource) → Keeps r r
Keeps-refl r = record {
  same_type = refl;
  later = omega arith;
  forward = λ p. omega arith;
  frozen = λ p d. (refl, refl, refl, refl);
  held = λ i. (i, (refl, refl, refl, refl));
}

-- A version only moves forward.
moves_forward :
    (k : ResourceType) (s t : Status)
    → is_publishable k ≡ true
    → may_follow k s t ≡ true
    → stage s < stage t
unfolding may_follow
moves_forward k s t p m = ground arith

stays_immutable : (b i : Bool) → i ≡ true → (if b then true else i) ≡ true
stays_immutable b i h = ground arith

transition-Keeps :
    (next : Status) (subject : Text) (now : ℕ) (r : Resource)
    → Keeps r (result_or r (transition next subject now r))
unfolding transition apply_transition
transition-Keeps next subject now r = elim (Bool-cases (may_follow r.resource_type r.status next)) [
  | inl e ↦ simp e (record {
    same_type = refl;
    later = omega arith;
    forward = λ p. omega (arith, moves_forward r.resource_type r.status next p e);
    frozen = λ p d. (refl, refl, refl, refl);
    held = λ i. (stays_immutable _ r.immutable i, (refl, refl, refl, refl));
  })
  | inr e ↦ simp e (Keeps-refl r)
]

draft_first : (s : Status) (n : ℕ) → is_draft s ≡ true → stage s ≤ n
draft_first s n h = ground arith

-- A version that is not locked is a draft.
open_draft : (i p d : Bool) → (i || p && not d) ≡ false → p ≡ true → d ≡ true
open_draft i p d h q = ground arith

not_immutable : (i b : Bool) → (i || b) ≡ false → i ≡ false
not_immutable i b h = ground arith

true≢false : (b : Bool) → b ≡ true → b ≡ false → ⊥
true≢false b t f = ground arith

apply_patch-Keeps :
    (p : ResourcePatch) (subject : Text) (now : ℕ) (r : Resource)
    → is_locked r ≡ false
    → Keeps r (apply_patch p subject now r)
unfolding apply_patch
apply_patch-Keeps p subject now r e =
    let first = open_draft r.immutable (is_publishable r.resource_type) (is_draft r.status) e in
    record {
      same_type = refl;
      later = omega arith;
      forward = λ q. draft_first r.status _ (first q);
      frozen = λ q d. absurd (true≢false (is_draft r.status) (first q) d);
      held = λ i. absurd (true≢false r.immutable i (not_immutable r.immutable _ e));
    }

patch-Keeps :
    (p : ResourcePatch) (if_match : Option ℕ) (subject : Text) (now : ℕ) (r : Resource)
    → Keeps r (result_or r (patch p if_match subject now r))
unfolding patch
patch-Keeps p if_match subject now r = elim (Bool-cases (is_locked r)) [
  | inl e ↦ simp e (Keeps-refl r)
  | inr e ↦ elim (Bool-cases (is_match if_match r.version)) [
    | inl m ↦ elim (Bool-cases (is_barred r p.status)) [
      | inl b ↦ simp (e, m, b) (Keeps-refl r)
      | inr b ↦ simp (e, m, b) (apply_patch-Keeps p subject now r e)
    ]
    | inr m ↦ simp (e, m) (Keeps-refl r)
  ]
]

change-Keeps : (c : Change) (r : Resource) → Keeps r (apply_change c r)
unfolding apply_change
change-Keeps (patched p if_match subject now) r = patch-Keeps p if_match subject now r
change-Keeps (moved next subject now) r = transition-Keeps next subject now r

-- A stage that is not the first is not a draft's.
past_draft : (s t : Status) → stage s ≤ stage t → is_draft s ≡ false → is_draft t ≡ false
past_draft s t le d = ground (arith, le, d)

same_trans : (r s t : Resource) → SameContent r s → SameContent s t → SameContent r t
same_trans r s t h k = (k.0 ∙ h.0, k.1 ∙ h.1, k.2 ∙ h.2, k.3 ∙ h.3)

Keeps-trans : (r s t : Resource) → Keeps r s → Keeps s t → Keeps r t
Keeps-trans r s t h k = record {
  same_type = k.same_type ∙ h.same_type;
  later = omega (arith, h.later, k.later);
  forward = λ p. omega (arith, h.forward p, k.forward (ap is_publishable h.same_type ∙ p));
  frozen = λ p d.
      let p' = ap is_publishable h.same_type ∙ p in
      let d' = past_draft r.status s.status (h.forward p) d in
      same_trans r s t (h.frozen p d) (k.frozen p' d');
  held = λ i.
      let before = h.held i in
      let after = k.held before.0 in (after.0, same_trans r s t before.1 after.1);
}

-- Whatever patches and transitions are asked for, the type of a resource stays and its version does
-- not go down; a curriculum, rubric, taxonomy or syllabus version never goes back to an earlier
-- stage; and once it is no draft, or a resource of any type is immutable, its title, payload, search
-- text and access classification stay, and it stays immutable if it is.
pub apply_all-Keeps : (cs : List Change) (r : Resource) → Keeps r (apply_all cs r)
unfolding apply_all
apply_all-Keeps [] r = Keeps-refl r
apply_all-Keeps (c ∷ cs) r =
    Keeps-trans r (apply_change c r) (apply_all cs (apply_change c r)) (change-Keeps c r)
      (apply_all-Keeps cs (apply_change c r))

either_true : (a b : Bool) → b ≡ true → (a || b) ≡ true
either_true a b h = ground arith

-- Evidence versions and dataset releases keep the title, payload, search text and access
-- classification that they were created with, whatever patches and transitions are asked for.
pub evidence_lem :
    (kind : ResourceType) (request : ResourceCreate) (immutable : Bool) (subject : Text) (now : ℕ)
    (cs : List Change)
    → is_immutable_type kind ≡ true
    → let r = new_resource kind request immutable subject now in
      (create true kind request immutable subject now ≡ answered r) × SameContent r (apply_all cs r)
evidence_lem kind request immutable subject now cs h =
    let r = new_resource kind request immutable subject now in
    let keeps = apply_all-Keeps cs r in
    (
      (unfold create in refl),
      (keeps.held (unfold new_resource in either_true immutable (is_immutable_type kind) h)).1,
    )
