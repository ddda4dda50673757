-- ===== src/Institution/Access/Tests.antt =====
-- Requests that are let through or refused, and reads of resources.
use predixa_learn.Prelude.{
  ◌≡◌, ◌⊎◌, refl, true, none, some, [], ◌∷◌, any, keep, first, Text, text, same, starts_with,
  has_text, is_space, strip_left,
}
use predixa_learn.Institution.Workers.State.{refused, answered}
use predixa_learn.Institution.Access.Roles.{role_permissions, all_permissions}
use predixa_learn.Institution.Access.Principals.{
  Principal, allows, absent, one, Claims, Request, Library, can_access_scope, words, string_set,
  is_mutating, feature_paths, is_disabled, enabled_features, with_claims, current_principal,
  require,
}
use predixa_learn.Institution.Access.Scopes.{
  ScopedResource, is_visible, is_wanted, scope_guard, get, IsReadable, get_lem,
}
use predixa_learn.Institution.Access.Requests.{IsFrom, IsAdmitted, require_lem}

abbrev claims : Claims
claims = record {
  sub = text "u";
  tenant_id = text " t ";
  csrf = text "c";
  roles = one (text "worker");
  permissions = absent;
  features = absent;
  academic_unit_ids = absent;
  course_ids = one (text "m1 m2");
  learner_id = none;
}

abbrev lib : Library
lib = record { decode_token = λ t. none; decode_session = λ t. some claims }

abbrev post : Text → Request
post csrf = record {
  bearer = none;
  cookie = some (text "s");
  csrf_header = csrf;
  method = text "POST";
  path = text "/api/v2/workers";
}

abbrev worker : Principal
worker = record {
  subject = text "u";
  tenant_id = text "t";
  roles = text "worker" ∷ [];
  permissions = text "worker:claim" ∷ text "worker:publish" ∷ [];
  academic_unit_ids = [];
  course_ids = text "m1" ∷ text "m2" ∷ [];
  enabled_features = text "workers" ∷ [];
  csrf_token = some (text "c");
  learner_id = none;
}

claim_passes :
    require (text "worker:claim") lib (text "workers" ∷ []) (post (text "c")) ≡ answered worker
unfolding require current_principal with_claims is_mutating is_disabled feature_paths any
    enabled_features keep string_set words is_space strip_left has_text same starts_with
    role_permissions all_permissions allows
claim_passes = refl

forgery_refused :
    require (text "worker:claim") lib (text "workers" ∷ []) (post []) ≡ refused 403 "csrf_failed"
unfolding require current_principal with_claims is_mutating same
forgery_refused = refl

feature_refused :
    require (text "worker:claim") lib [] (post (text "c")) ≡ refused 404 "feature_disabled"
unfolding require current_principal with_claims is_mutating is_disabled feature_paths any
    enabled_features keep is_space strip_left has_text same starts_with
feature_refused = refl

require_lem_example :
    (c : Claims) × (IsFrom lib (post (text "c")) c)
    × (IsAdmitted (text "workers" ∷ []) (post (text "c")) c worker)
    × (allows worker (text "worker:claim") ≡ true)
require_lem_example =
    require_lem (text "worker:claim") lib (text "workers" ∷ []) (post (text "c")) worker
      claim_passes

abbrev lesson : Text → Text → ScopedResource
lesson course access = record {
  tenant_id = text "t";
  resource_type = text "feedback";
  resource_id = text "r";
  access_classification = access;
  created_by = text "v";
  academic_unit_id = none;
  course_id = some course;
}

reads_own_course :
    get worker (text "feedback") (text "r") (lesson (text "m2") (text "institution") ∷ [])
    ≡ answered (lesson (text "m2") (text "institution"))
unfolding get first is_visible scope_guard can_access_scope same has_text
reads_own_course = refl

other_course_hidden :
    get worker (text "feedback") (text "r") (lesson (text "m3") (text "institution") ∷ [])
    ≡ refused 404 "not_found"
unfolding get first is_visible same has_text
other_course_hidden = refl

get_lem_example :
    ((first
          (is_wanted worker (text "feedback") (text "r"))
          (lesson (text "m2") (text "private") ∷ [])
        ≡ none)
      × (get worker (text "feedback") (text "r") (lesson (text "m2") (text "private") ∷ [])
          ≡ refused 404 "not_found"))
    ⊎ ((r : ScopedResource) × (first
            (is_wanted worker (text "feedback") (text "r"))
            (lesson (text "m2") (text "private") ∷ [])
          ≡ some r)
        × (get worker (text "feedback") (text "r") (lesson (text "m2") (text "private") ∷ [])
            ≡ answered r)
        × IsReadable worker (text "feedback") (text "r") r)
get_lem_example =
    get_lem worker (text "feedback") (text "r") (lesson (text "m2") (text "private") ∷ [])
