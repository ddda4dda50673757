-- ===== src/Institution/Resources/Changes.antt =====
-- Patches and transitions of a resource
-- (apps/institution-server/institution_server/service.py, `patch`, `require_match`, `transition`).
-- The header `If-Match` is the number of the tag `W/"…"` that it spells, if any.
use predixa_learn.Prelude.{
  text, same, ◌||◌, true, ℕ, ◌+◌, String, Bool, false, not, ◌&&◌, Option, none, some, List, [], ◌∷◌,
  if◌then◌else◌, ◌==◌, Text,
}
use predixa_learn.Institution.Resources.Rules.{
  ResourceType, Status, draft, published, other, is_immutable_type, is_publishable, has_rules,
  may_follow,
}
use predixa_learn.Institution.Workers.State.{Answer, refused, answered}

pub record Resource : Type 0 where
  pub resource_type : ResourceType
  pub version : ℕ
  pub title : Text
  pub status : Status
  pub payload : String
  pub search_text : Text
  pub access_classification : Text
  pub immutable : Bool
  pub updated_by : Text
  pub updated_at : ℕ

pub record ResourcePatch : Type 0 where
  pub title : Option Text
  pub status : Option Status
  pub payload : Option String
  pub search_text : Option Text
  pub access_classification : Option Text

abbrev pub if_given {ℓ} : {A : Type ℓ} → Option A → A → A
if_given none old = old
if_given (some a) old = a

abbrev pub is_draft : Status → Bool
is_draft draft = true
is_draft _ = false

abbrev pub is_published : Status → Bool
is_published published = true
is_published _ = false

-- `require_match`, where `false` is the answer 412
abbrev pub is_match : Option ℕ → ℕ → Bool
is_match none version = false
is_match (some n) version = n == version

-- `transitions is not None and next_status not in transitions.get(status, set())`
abbrev pub is_barred : Resource → Option Status → Bool
is_barred r none = false
is_barred r (some next) =
    has_rules r.resource_type && not (may_follow r.resource_type r.status next)

unfoldable pub apply_patch : ResourcePatch → Text → ℕ → Resource → Resource
apply_patch p subject now r = record r {
  title = if_given p.title r.title;
  status = if_given p.status r.status;
  payload = if_given p.payload r.payload;
  search_text = if_given p.search_text r.search_text;
  access_classification = if_given p.access_classification r.access_classification;
  version = r.version + 1;
  updated_by = subject;
  updated_at = now;
}

-- The first guard of `patch`
abbrev pub is_locked : Resource → Bool
is_locked r = r.immutable || is_publishable r.resource_type && not (is_draft r.status)

pub record ResourceCreate : Type 0 where
  pub title : Text
  pub status : Status
  pub payload : String
  pub search_text : Text
  pub access_classification : Text

abbrev is_private_type : ResourceType → Bool
is_private_type (other name) = same name (text "student_revision_progress")
is_private_type _ = false

-- `create`; `in_scope` says whether the user's scope has the unit and the course.
unfoldable pub new_resource : ResourceType → ResourceCreate → Bool → Text → ℕ → Resource
new_resource kind request immutable subject now = record {
  resource_type = kind;
  version = 1;
  title = request.title;
  status = request.status;
  payload = request.payload;
  search_text = request.search_text;
  access_classification =
      if is_private_type kind then text "private" else request.access_classification;
  immutable = immutable || is_immutable_type kind;
  updated_by = subject;
  updated_at = now;
}

unfoldable pub create : Bool → ResourceType → ResourceCreate → Bool → Text → ℕ → Answer Resource
create in_scope kind request immutable subject now =
    if in_scope
    then answered (new_resource kind request immutable subject now)
    else refused 403 "scope_denied"

-- `patch`, for the user `subject`
unfoldable pub patch : ResourcePatch → Option ℕ → Text → ℕ → Resource → Answer Resource
patch p if_match subject now r =
    if is_locked r
    then refused 409 "immutable_resource"
    else if not (is_match if_match r.version)
    then refused 412 "version_conflict"
    else if is_barred r p.status
    then refused 409 "invalid_transition"
    else answered (apply_patch p subject now r)

unfoldable pub apply_transition : Status → Text → ℕ → Resource → Resource
apply_transition next subject now r = record r {
  status = next;
  version = r.version + 1;
  updated_by = subject;
  updated_at = now;
  immutable = if is_publishable r.resource_type && is_published next then true else r.immutable;
}

-- `transition`
unfoldable pub transition : Status → Text → ℕ → Resource → Answer Resource
transition next subject now r =
    if not (may_follow r.resource_type r.status next)
    then refused 409 "invalid_transition"
    else answered (apply_transition next subject now r)

-- The changes that handlers ask for, one after another; a refused one leaves the resource as it is.
pub data Change : Type 0 where
  patched : ResourcePatch → Option ℕ → Text → ℕ → Change
  moved : Status → Text → ℕ → Change

abbrev pub result_or : Resource → Answer Resource → Resource
result_or r (refused n code) = r
result_or r (answered r') = r'

unfoldable pub apply_change : Change → Resource → Resource
apply_change (patched p if_match subject now) r = result_or r (patch p if_match subject now r)
apply_change (moved next subject now) r = result_or r (transition next subject now r)

unfoldable pub apply_all : List Change → Resource → Resource
apply_all [] r = r
apply_all (c ∷ cs) r = apply_all cs (apply_change c r)
