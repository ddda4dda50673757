-- ===== src/Institution/Resources/Tests.antt =====
-- A rubric that is published and then patched
-- (apps/institution-server/institution_server/service.py).
use predixa_learn.Prelude.{true, ◌≡◌, refl, false, none, some, List, [], ◌∷◌, text}
use predixa_learn.Institution.Workers.State.{refused}
use predixa_learn.Institution.Resources.Rules.{
  evidence_version, is_immutable_type, rubric_version, draft, published, may_follow,
}
use predixa_learn.Institution.Resources.Changes.{
  ResourceCreate, Resource, ResourcePatch, patch, apply_patch, transition, apply_transition, Change,
  patched, moved, apply_change, apply_all,
}
use predixa_learn.Institution.Resources.Lifecycle.{Follows, change-Follows}
use predixa_learn.Institution.Resources.Frozen.{Keeps, apply_all-Keeps}

abbrev rubric : Resource
rubric = record {
  resource_type = rubric_version;
  version = 1;
  title = text "Marks";
  status = draft;
  payload = "";
  search_text = [];
  access_classification = text "institution";
  immutable = false;
  updated_by = text "head";
  updated_at = 1;
}

abbrev rename : ResourcePatch
rename = record {
  title = some (text "Grades");
  status = none;
  payload = none;
  search_text = none;
  access_classification = none;
}

abbrev changes : List Change
changes = moved published (text "head") 2 ∷ patched rename (some 2) (text "head") 3 ∷ []

refuses_the_patch :
    patch rename (some 2) (text "head") 3 (apply_all (moved published (text "head") 2 ∷ []) rubric)
    ≡ refused 409 "immutable_resource"
unfolding apply_all apply_change patch apply_patch transition apply_transition may_follow
refuses_the_patch = refl

apply_all-Keeps_example : Keeps rubric (apply_all changes rubric)
apply_all-Keeps_example = apply_all-Keeps changes rubric

change-Follows_example : Follows rubric (apply_change (moved published (text "head") 2) rubric)
change-Follows_example = change-Follows (moved published (text "head") 2) rubric refl

abbrev evidence : ResourceCreate
evidence = record {
  title = text "Scan";
  status = draft;
  payload = "";
  search_text = [];
  access_classification = text "institution";
}

is_evidence : is_immutable_type evidence_version ≡ true
unfolding is_immutable_type
is_evidence = refl
