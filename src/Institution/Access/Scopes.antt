-- ===== src/Institution/Access/Scopes.antt =====
-- Which resources a principal reads (apps/institution-server/institution_server/service.py,
-- `ResourceService._scope_guard`, `_query` and `get`).
use predixa_learn.Prelude.{
  ◌≡◌, ◌⊎◌, inl, inr, refl, Bool, true, false, not, ◌&&◌, ◌||◌, Option, none, some, List, [], ◌∷◌,
  if◌then◌else◌, first, first_holds, Text, text, same, has_text, eq_of_same, Bool-cases, arith,
}
use predixa_learn.Institution.Workers.State.{Answer, refused, answered}
use predixa_learn.Institution.Access.Principals.{Principal, is_empty, is_outside, can_access_scope}

-- The columns of a resource that the queries read
pub record ScopedResource : Type 0 where
  pub tenant_id : Text
  pub resource_type : Text
  pub resource_id : Text
  pub access_classification : Text
  pub created_by : Text
  pub academic_unit_id : Option Text
  pub course_id : Option Text

-- `_scope_guard`
unfoldable pub scope_guard : Principal → Option Text → Option Text → Answer Unit
scope_guard p unit course =
    if can_access_scope p unit course then answered tt else refused 403 "scope_denied"

-- `or_(column.is_(None), column.in_(ids))`
abbrev pub is_among : List Text → Option Text → Bool
is_among ids none = true
is_among ids (some id) = has_text id ids

abbrev is_private_to : Text → ScopedResource → Bool
is_private_to subject r =
    not (same r.access_classification (text "private")) || same r.created_by subject

-- `resource_type and Resource.resource_type == resource_type`, and the condition on students
abbrev is_of_type : Principal → Option Text → ScopedResource → Bool
is_of_type p none r = true
is_of_type p (some []) r = true
is_of_type p (some (c ∷ cs)) r =
    same r.resource_type (c ∷ cs)
    && (not (same (c ∷ cs) (text "student_revision_progress") && has_text (text "student") p.roles)
        || same r.created_by p.subject)

-- A condition on a scope, which is only put for principals with such a scope
abbrev is_in_scope : Principal → List Text → Option Text → Bool
is_in_scope p ids id = is_empty ids || has_text (text "*") p.permissions || is_among ids id

-- `_query`
unfoldable pub is_visible : Principal → Option Text → ScopedResource → Bool
is_visible p kind r =
    same r.tenant_id p.tenant_id
    && is_private_to p.subject r
    && is_of_type p kind r
    && is_in_scope p p.course_ids r.course_id
    && is_in_scope p p.academic_unit_ids r.academic_unit_id

abbrev then_answer : {A : Type 0} → Answer Unit → A → Answer A
then_answer (refused n code) a = refused n code
then_answer (answered u) a = answered a

abbrev guarded : Principal → Option ScopedResource → Answer ScopedResource
guarded p none = refused 404 "not_found"
guarded p (some r) = then_answer (scope_guard p r.academic_unit_id r.course_id) r

abbrev pub is_wanted : Principal → Text → Text → ScopedResource → Bool
is_wanted p kind id r = is_visible p (some kind) r && same r.resource_id id

-- `get`
unfoldable pub get : Principal → Text → Text → List ScopedResource → Answer ScopedResource
get p kind id rows = guarded p (first (is_wanted p kind id) rows)

in_scope-outside :
    (p : Principal) (ids : List Text) (id : Option Text)
    → has_text (text "*") p.permissions ≡ false
    → is_in_scope p ids id ≡ true
    → is_outside ids id ≡ false
in_scope-outside p ids none s h = refl
in_scope-outside p ids (some id) s h = ground (arith, s, h)

last_two : (a b c d e : Bool) → (a && b && c && d && e) ≡ true → (d ≡ true) × (e ≡ true)
last_two a b c d e h = (ground (arith, h), ground (arith, h))

-- What the query returns passes the scope guard.
pub visible-can_access_scope :
    (p : Principal) (kind : Option Text) (r : ScopedResource)
    → is_visible p kind r ≡ true
    → can_access_scope p r.academic_unit_id r.course_id ≡ true
unfolding is_visible can_access_scope
visible-can_access_scope p kind r h = elim (Bool-cases (has_text (text "*") p.permissions)) [
  | inl s ↦ simp s refl
  | inr s ↦
      let scopes =
        last_two (same r.tenant_id p.tenant_id) (is_private_to p.subject r) (is_of_type p kind r)
          (is_in_scope p p.course_ids r.course_id)
          (is_in_scope p p.academic_unit_ids r.academic_unit_id) h in
      simp
        (
          s,
          in_scope-outside p p.course_ids r.course_id s scopes.0,
          in_scope-outside p p.academic_unit_ids r.academic_unit_id s scopes.1,
        )
        refl
]

-- The row that a read answers
pub record IsReadable (p : Principal) (kind id : Text) (r : ScopedResource) : Type 0 where
  pub own_tenant : r.tenant_id ≡ p.tenant_id
  pub wanted : r.resource_id ≡ id
  pub of_type : is_empty kind ≡ false → r.resource_type ≡ kind
  pub not_private :
      (same r.access_classification (text "private") ≡ false) ⊎ (r.created_by ≡ p.subject)
  pub in_scope : can_access_scope p r.academic_unit_id r.course_id ≡ true

or_cases : (a b : Bool) → (not a || b) ≡ true → (a ≡ false) ⊎ (b ≡ true)
or_cases true b h = inr h
or_cases false b h = inl refl

typed :
    (p : Principal) (kind : Text) (r : ScopedResource)
    → is_of_type p (some kind) r ≡ true
    → is_empty kind ≡ false
    → same r.resource_type kind ≡ true
typed p [] r h e = absurd (ground arith)
typed p (c ∷ cs) r h e = ground (arith, h)

five :
    (a b c d e f : Bool)
    → ((a && b && c && d && e) && f) ≡ true
    → (a ≡ true) × (b ≡ true) × (c ≡ true) × ((a && b && c && d && e) ≡ true) × (f ≡ true)
five a b c d e f h =
    (ground (arith, h), ground (arith, h), ground (arith, h), ground (arith, h), ground (arith, h))

wanted-IsReadable :
    (p : Principal) (kind id : Text) (r : ScopedResource)
    → is_wanted p kind id r ≡ true
    → IsReadable p kind id r
unfolding is_visible
wanted-IsReadable p kind id r h =
    let parts =
      five (same r.tenant_id p.tenant_id) (is_private_to p.subject r) (is_of_type p (some kind) r)
        (is_in_scope p p.course_ids r.course_id)
        (is_in_scope p p.academic_unit_ids r.academic_unit_id) (same r.resource_id id) h in
    record {
      own_tenant = eq_of_same r.tenant_id p.tenant_id parts.0;
      wanted = eq_of_same r.resource_id id parts.4;
      of_type = λ e. eq_of_same r.resource_type kind (typed p kind r parts.2 e);
      not_private =
          elim (or_cases (same r.access_classification (text "private"))
            (same r.created_by p.subject) parts.1) [
              | inl e ↦ inl e
              | inr e ↦ inr (eq_of_same r.created_by p.subject e)
            ];
      in_scope = visible-can_access_scope p (some kind) r parts.3;
    }

-- Reading a resource answers 404 just where the query finds no row, and else the row that the query
-- finds, which is of the principal's tenant and the requested type and id, is not another subject's
-- private resource and lies in the principal's scope. The scope guard never refuses it.
pub get_lem :
    (p : Principal) (kind id : Text) (rows : List ScopedResource)
    → ((first (is_wanted p kind id) rows ≡ none) × (get p kind id rows ≡ refused 404 "not_found"))
      ⊎ ((r : ScopedResource) × (first (is_wanted p kind id) rows ≡ some r)
          × (get p kind id rows ≡ answered r)
          × IsReadable p kind id r)
unfolding get scope_guard
get_lem p kind id rows = found (first (is_wanted p kind id) rows) refl
  where
    found :
        (o : Option ScopedResource)
        → first (is_wanted p kind id) rows ≡ o
        → ((o ≡ none) × (guarded p o ≡ refused 404 "not_found"))
          ⊎ ((r : ScopedResource) × (o ≡ some r)
              × (guarded p o ≡ answered r)
              × IsReadable p kind id r)
    found none e = inl (refl, refl)
    found (some r) e =
        let readable = wanted-IsReadable p kind id r (first_holds (is_wanted p kind id) rows r e) in
        inr (r, refl, simp readable.in_scope refl, readable)
