-- ===== src/Institution/Access/Principals.antt =====
-- The principal of a request (apps/institution-server/institution_server/security.py, `Principal`,
-- `current_principal` and `require`). The tokens are decoded by functions of a `Library`, which answer
-- the claims of a token that they accept.
use predixa_learn.Prelude.{
  ℕ, String, Bool, true, false, not, ◌&&◌, ◌||◌, Option, none, some, List, [], ◌∷◌, ◌++◌,
  if◌then◌else◌, any, keep, Text, text, same, starts_with, has_text, is_space, strip,
}
use predixa_learn.Institution.Workers.State.{Answer, refused, answered}
use predixa_learn.Institution.Access.Roles.{all_permissions}

pub record Principal : Type 0 where
  pub subject : Text
  pub tenant_id : Text
  pub roles : List Text
  pub permissions : List Text
  pub academic_unit_ids : List Text
  pub course_ids : List Text
  pub enabled_features : List Text
  pub csrf_token : Option Text
  pub learner_id : Option Text

-- `Principal.allows`
unfoldable pub allows : Principal → Text → Bool
allows p permission = has_text (text "*") p.permissions || has_text permission p.permissions

abbrev pub is_empty {ℓ} : {A : Type ℓ} → List A → Bool
is_empty [] = true
is_empty (x ∷ xs) = false

-- `ids and id and id not in ids`
abbrev pub is_outside : List Text → Option Text → Bool
is_outside ids none = false
is_outside ids (some id) = not (is_empty ids) && not (is_empty id) && not (has_text id ids)

-- `Principal.can_access_scope`
unfoldable pub can_access_scope : Principal → Option Text → Option Text → Bool
can_access_scope p unit course =
    if has_text (text "*") p.permissions
    then true
    else if is_outside p.course_ids course
    then false
    else if is_outside p.academic_unit_ids unit
    then false
    else true

-- A claim: absent, a text, a list of texts, or a value that is neither
pub data Claim : Type 0 where
  absent other : Claim
  one : Text → Claim
  many : List Text → Claim

abbrev joined : Text → List Text → List Text
joined [] rest = rest
joined (c ∷ cs) rest = (c ∷ cs) ∷ rest

abbrev put_first : ℕ → List Text → List Text
put_first c [] = (c ∷ []) ∷ []
put_first c (w ∷ ws) = (c ∷ w) ∷ ws

-- The words of a text; the first is empty where the text begins with a space.
unfoldable pub words : Text → List Text
words [] = [] ∷ []
words (c ∷ cs) = let rest = words cs in if is_space c then [] ∷ rest else put_first c rest

-- `_string_set`
unfoldable pub string_set : Claim → List Text
string_set (one t) = keep (λ w. not (is_empty w)) (words t)
string_set (many ts) = keep (λ t. not (is_empty (strip t))) ts
string_set _ = []

pub record Claims : Type 0 where
  pub sub : Text
  pub tenant_id : Text
  pub csrf : Text
  pub roles : Claim
  pub permissions : Claim
  pub features : Claim
  pub academic_unit_ids : Claim
  pub course_ids : Claim
  pub learner_id : Option Text

pub record Request : Type 0 where
  -- The bearer token, the cookie of the portal session and the header `X-CSRF-Token`
  pub bearer : Option Text
  pub cookie : Option Text
  pub csrf_header : Text
  pub method : Text
  pub path : Text

pub record Library : Type 0 where
  -- `_decode_token`, and the decoding of a session cookie; `none` is a PyJWTError
  pub decode_token : Text → Option Claims
  pub decode_session : Text → Option Claims

unfoldable pub is_mutating : Text → Bool
is_mutating m =
    same m (text "POST") || same m (text "PUT") || same m (text "PATCH") || same m (text "DELETE")

-- `feature_paths`
unfoldable pub feature_paths : List (Text × List Text)
feature_paths =
    (
      text "archive_review",
      text "/api/v2/archive" ∷ text "/api/v2/search" ∷ text "/api/v2/reviews" ∷ [],
    )
    ∷ (
      text "curriculum",
      text "/api/v2/curricula" ∷ text "/api/v2/rubrics" ∷ text "/api/v2/objective" ∷ [],
    )
    ∷ (
      text "answer_scripts",
      text "/api/v2/answer-" ∷ text "/api/v2/feedback" ∷ text "/api/v2/moderation" ∷ [],
    )
    ∷ (text "accessibility", text "/api/v2/figures" ∷ text "/api/v2/accessibility" ∷ [])
    ∷ (text "datasets", text "/api/v2/datasets" ∷ text "/api/v2/dataset-" ∷ [])
    ∷ (
      text "workers",
      text "/api/v2/workers" ∷ text "/api/v2/worker-jobs" ∷ text "/api/v2/sync" ∷ [],
    )
    ∷ (text "integrations", text "/api/v2/webhooks" ∷ [])
    ∷ (text "lti", text "/api/v2/lti" ∷ [])
    ∷ (
      text "teaching_workspace",
      text "/api/v2/teacher"
          ∷ text "/api/v2/student"
          ∷ text "/api/v2/question-bank"
          ∷ text "/api/v2/revision-packs"
          ∷ text "/api/v2/revision-progress"
          ∷ text "/api/v2/corrections"
          ∷ text "/api/v2/taxonomies"
          ∷ text "/api/v2/syllabi"
          ∷ text "/api/v2/comparisons"
          ∷ [],
    )
    ∷ []

-- Some feature of the path is not enabled.
unfoldable pub is_disabled : Text → List Text → Bool
is_disabled path enabled =
    any (λ f. any (λ p. starts_with p path) f.1 && not (has_text f.0 enabled)) feature_paths

-- `settings.enabled_features & claimed_features`
unfoldable pub enabled_features : List Text → Claim → List Text
enabled_features settings absent = settings
enabled_features settings c = keep (λ f. has_text f (string_set c)) settings

abbrev pub is_session : Request → Bool
is_session r = is_none r.bearer
  where
    is_none : Option Text → Bool
    is_none none = true
    is_none (some t) = false

-- What follows once the token is accepted
unfoldable pub with_claims : List Text → Request → Claims → Answer Principal
with_claims settings r c =
    if is_session r && is_mutating r.method && (is_empty c.csrf || not (same c.csrf r.csrf_header))
    then refused 403 "csrf_failed"
    else if is_empty (strip c.tenant_id)
    then refused 403 "tenant_required"
    else if is_disabled r.path (enabled_features settings c.features)
    then refused 404 "feature_disabled"
    else answered (record {
      subject = c.sub;
      tenant_id = strip c.tenant_id;
      roles = string_set c.roles;
      permissions = string_set c.permissions ++ all_permissions (string_set c.roles);
      academic_unit_ids = string_set c.academic_unit_ids;
      course_ids = string_set c.course_ids;
      enabled_features = enabled_features settings c.features;
      csrf_token = if is_session r then some c.csrf else none;
      learner_id = c.learner_id;
    })

abbrev pub decoded : List Text → Request → String → Option Claims → Answer Principal
decoded settings r code none = refused 401 code
decoded settings r code (some c) = with_claims settings r c

abbrev pub with_token : Library → List Text → Request → Option Text → Option Text → Answer Principal
with_token lib settings r (some []) cookie = refused 401 "authentication_required"
with_token lib settings r (some (x ∷ t)) cookie =
    decoded settings r "invalid_token" (lib.decode_token (x ∷ t))
with_token lib settings r none (some (x ∷ t)) =
    decoded settings r "invalid_session" (lib.decode_session (x ∷ t))
with_token lib settings r none _ = refused 401 "authentication_required"

-- `current_principal`, for the features that the settings enable
unfoldable pub current_principal : Library → List Text → Request → Answer Principal
current_principal lib settings r = with_token lib settings r r.bearer r.cookie

abbrev pub permitted : Text → Answer Principal → Answer Principal
permitted permission (refused n code) = refused n code
permitted permission (answered p) =
    if allows p permission then answered p else refused 403 "permission_denied"

-- `require`
unfoldable pub require : Text → Library → List Text → Request → Answer Principal
require permission lib settings r = permitted permission (current_principal lib settings r)
