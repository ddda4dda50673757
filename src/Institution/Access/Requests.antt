-- ===== src/Institution/Access/Requests.antt =====
-- What a request that is let through has shown
-- (apps/institution-server/institution_server/security.py, `current_principal` and `require`).
use predixa_learn.Prelude.{
  ℕ, ◌≡◌, ◌⊎◌, inl, inr, refl, ap, subst, String, Bool, true, false, not, ◌&&◌, ◌||◌, Option, none,
  some, List, [], ◌∷◌, ◌++◌, if◌then◌else◌, All, All-keep, same_refl, Text, same, has_text, strip,
  arith,
}
use predixa_learn.Institution.Workers.State.{Answer, refused, answered}
use predixa_learn.Institution.Access.Roles.{all_permissions}
use predixa_learn.Institution.Access.Principals.{
  Principal, allows, is_empty, Claim, absent, other, one, many, string_set, Claims, Request,
  Library, is_mutating, is_disabled, enabled_features, is_session, with_claims, decoded, with_token,
  current_principal, permitted, require,
}

-- What the claims and the request satisfy
pub record IsAdmitted (settings : List Text) (r : Request) (c : Claims) (p : Principal)
    : Type 0 where
  pub no_forgery :
      is_session r ≡ true
      → is_mutating r.method ≡ true
      → (is_empty c.csrf ≡ false) × (same c.csrf r.csrf_header ≡ true)
  pub has_tenant : is_empty p.tenant_id ≡ false
  pub own_tenant : p.tenant_id ≡ strip c.tenant_id
  pub permissions : p.permissions ≡ string_set c.permissions ++ all_permissions (string_set c.roles)
  pub enabled : is_disabled r.path p.enabled_features ≡ false
  pub features : All (λ f. has_text f settings ≡ true) p.enabled_features

guard :
    (b : Bool) (n : ℕ) (code : String) (r : Answer Principal) (p : Principal)
    → (if b then refused n code else r) ≡ answered p
    → (b ≡ false) × (r ≡ answered p)
guard true n code r p h = absurd (ground arith)
guard false n code r p h = (refl, h)

principal_of : Principal → Answer Principal → Principal
principal_of p (refused n code) = p
principal_of p (answered q) = q

answered_one : (q p : Principal) → answered q ≡ answered p → q ≡ p
unfolding principal_of
answered_one q p h = ap (principal_of p) h

All-known :
    (xs zs : List Text)
    → ((t : Text) → has_text t xs ≡ true → has_text t zs ≡ true)
    → All (λ f. has_text f zs ≡ true) xs
unfolding has_text
All-known [] zs h = tt
All-known (x ∷ xs) zs h =
    (h x (rw (same_refl x) refl), All-known xs zs λ t k. h t (ground (arith, k)))

known_features :
    (settings : List Text) (c : Claim)
    → All (λ f. has_text f settings ≡ true) (enabled_features settings c)
unfolding enabled_features
known_features settings absent = All-known settings settings λ t h. h
known_features settings other =
    All-keep (λ f. has_text f settings ≡ true) _ settings (All-known settings settings λ t h. h)
known_features settings (one t) =
    All-keep (λ f. has_text f settings ≡ true) _ settings (All-known settings settings λ t h. h)
known_features settings (many ts) =
    All-keep (λ f. has_text f settings ≡ true) _ settings (All-known settings settings λ t h. h)

genuine :
    (s m e t : Bool)
    → (s && m && (e || not t)) ≡ false
    → s ≡ true
    → m ≡ true
    → (e ≡ false) × (t ≡ true)
genuine s m e t h k l = (ground (arith, h, k, l), ground (arith, h, k, l))

claims-IsAdmitted :
    (settings : List Text) (r : Request) (c : Claims) (p : Principal)
    → with_claims settings r c ≡ answered p
    → IsAdmitted settings r c p
unfolding with_claims
claims-IsAdmitted settings r c p h =
    let csrf =
      guard
        (is_session r
          && is_mutating r.method
          && (is_empty c.csrf || not (same c.csrf r.csrf_header)))
        403 "csrf_failed" _ p h in
    let tenant = guard (is_empty (strip c.tenant_id)) 403 "tenant_required" _ p csrf.1 in
    let feature =
      guard (is_disabled r.path (enabled_features settings c.features)) 404 "feature_disabled" _ p
        tenant.1 in
    subst (IsAdmitted settings r c) (answered_one _ p feature.1) record {
      no_forgery =
          genuine (is_session r) (is_mutating r.method) (is_empty c.csrf)
            (same c.csrf r.csrf_header) csrf.0;
      has_tenant = tenant.0;
      own_tenant = refl;
      permissions = refl;
      enabled = feature.0;
      features = known_features settings c.features;
    }

-- Where the claims of an accepted request come from
abbrev pub IsFrom : Library → Request → Claims → Type 0
IsFrom lib r c =
    ((t : Text) × (r.bearer ≡ some t) × (lib.decode_token t ≡ some c))
    ⊎ ((t : Text) × (r.bearer ≡ none) × (r.cookie ≡ some t) × (lib.decode_session t ≡ some c))

module _ (lib : Library) (settings : List Text) (r : Request) (p : Principal) where
  decoded-IsAdmitted :
      (code : String) (o : Option Claims)
      → decoded settings r code o ≡ answered p
      → (c : Claims) × (o ≡ some c) × IsAdmitted settings r c p
  decoded-IsAdmitted code none h = absurd (ground arith)
  decoded-IsAdmitted code (some c) h = (c, refl, claims-IsAdmitted settings r c p h)

  token-IsAdmitted :
      (bearer cookie : Option Text)
      → r.bearer ≡ bearer
      → r.cookie ≡ cookie
      → with_token lib settings r bearer cookie ≡ answered p
      → (c : Claims) × IsFrom lib r c × IsAdmitted settings r c p
  token-IsAdmitted (some []) cookie b k h = absurd (ground arith)
  token-IsAdmitted (some (x ∷ t)) cookie b k h =
      let (c, e, a) = decoded-IsAdmitted "invalid_token" (lib.decode_token (x ∷ t)) h in
      (c, inl (x ∷ t, b, e), a)
  token-IsAdmitted none none b k h = absurd (ground arith)
  token-IsAdmitted none (some []) b k h = absurd (ground arith)
  token-IsAdmitted none (some (x ∷ t)) b k h =
      let (c, e, a) = decoded-IsAdmitted "invalid_session" (lib.decode_session (x ∷ t)) h in
      (c, inr (x ∷ t, b, k, e), a)

allowed :
    (permission : Text) (a : Answer Principal) (p : Principal)
    → permitted permission a ≡ answered p
    → (a ≡ answered p) × (allows p permission ≡ true)
allowed permission (refused n code) p h = absurd (ground arith)
allowed permission (answered q) p h = branch (allows q permission) refl h
  where
    branch :
        (b : Bool)
        → allows q permission ≡ b
        → (if b then answered q else refused 403 "permission_denied") ≡ answered p
        → (answered q ≡ answered p) × (allows p permission ≡ true)
    branch true e k = (k, subst (λ x. allows x permission ≡ true) (answered_one q p k) e)
    branch false e k = absurd (ground arith)

-- A request passes `require` only with the claims of an accepted bearer token, or without a bearer token
-- with those of an accepted session cookie; then the principal has the tenant of the claims, which is
-- not blank, the permission, which its claims or its roles give, and no feature but those of the
-- settings; the path belongs to no feature that it has not; and a request with a session cookie that
-- changes state carries the session's token, which is not empty.
pub require_lem :
    (permission : Text) (lib : Library) (settings : List Text) (r : Request) (p : Principal)
    → require permission lib settings r ≡ answered p
    → (c : Claims) × (IsFrom lib r c) × (IsAdmitted settings r c p) × (allows p permission ≡ true)
unfolding require current_principal
require_lem permission lib settings r p h =
    let (passes, may) = allowed permission (with_token lib settings r r.bearer r.cookie) p h in
    let (c, from, admitted) =
      token-IsAdmitted lib settings r p r.bearer r.cookie refl refl passes in
    (c, from, admitted, may)
