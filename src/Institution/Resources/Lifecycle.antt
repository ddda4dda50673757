-- ===== src/Institution/Resources/Lifecycle.antt =====
-- Statuses follow the table of transitions
-- (apps/institution-server/institution_server/service.py).
use predixa_learn.Prelude.{
  ℕ, ◌≡◌, ◌⊎◌, refl, Bool, true, false, not, ◌&&◌, Option, none, some, Text, arith, Bool-cases, inl,
  inr,
}
use predixa_learn.Institution.Resources.Rules.{Status, has_rules, may_follow}
use predixa_learn.Institution.Resources.Changes.{
  if_given, Resource, ResourcePatch, is_match, is_barred, apply_patch, is_locked, patch,
  apply_transition, transition, Change, patched, moved, apply_change,
}

-- The status stayed, or the table allows the step.
abbrev pub Follows : Resource → Resource → Type 0
Follows r r' = (r'.status ≡ r.status) ⊎ (may_follow r.resource_type r.status r'.status ≡ true)

allowed : (h m : Bool) → (h && not m) ≡ false → h ≡ true → m ≡ true
allowed h m b t = ground arith

apply_patch-Follows :
    (p : ResourcePatch) (subject : Text) (now : ℕ) (r : Resource)
    → has_rules r.resource_type ≡ true
    → is_barred r p.status ≡ false
    → Follows r (apply_patch p subject now r)
unfolding apply_patch
apply_patch-Follows p subject now r ruled b = given p.status b
  where
    given :
        (o : Option Status)
        → is_barred r o ≡ false
        → (if_given o r.status ≡ r.status)
          ⊎ (may_follow r.resource_type r.status (if_given o r.status) ≡ true)
    given none b' = inl refl
    given (some s) b' =
        inr (allowed (has_rules r.resource_type) (may_follow r.resource_type r.status s) b' ruled)

-- Where the tables have rules for the type of a resource, a patch or a transition leaves its status or
-- takes a step that they allow; so a status that nothing follows is final.
pub change-Follows :
    (c : Change) (r : Resource) → has_rules r.resource_type ≡ true → Follows r (apply_change c r)
unfolding apply_change patch transition apply_transition
change-Follows (patched p if_match subject now) r ruled = elim (Bool-cases (is_locked r)) [
  | inl e ↦ simp e (inl refl)
  | inr e ↦ elim (Bool-cases (is_match if_match r.version)) [
    | inl m ↦ elim (Bool-cases (is_barred r p.status)) [
      | inl b ↦ simp (e, m, b) (inl refl)
      | inr b ↦ simp (e, m, b) (apply_patch-Follows p subject now r ruled b)
    ]
    | inr m ↦ simp (e, m) (inl refl)
  ]
]
change-Follows (moved next subject now) r ruled =
    elim (Bool-cases (may_follow r.resource_type r.status next)) [
      | inl e ↦ simp e (inr refl)
      | inr e ↦ simp e (inl refl)
    ]
