-- ===== src/Studio/Teaching/Published.antt =====
-- At most one edition of a taxonomy is published, and versions count up
-- (apps/ocr-studio/app/teaching/store.py, `create_taxonomy`).
use predixa_learn.Prelude.{
  and_false, ℕ, ◌+◌, ◌≤◌, ◌<◌, ◌≡◌, refl, subst, ◌∙◌, Bool, true, false, ◌&&◌, Option, none, some,
  List, [], ◌∷◌, ◌++◌, if◌then◌else◌, map, Text, same, eq_of_same, count, count-append, arith, All,
  Bool-cases, inl, inr,
}
use predixa_learn.Studio.Teaching.Trees.{Node, ids, Checked, invalid, valid, validate_tree}
use predixa_learn.Studio.Teaching.Hierarchy.{IsUnique, IsRooted, validate_tree_lem}
use predixa_learn.Studio.Teaching.Editions.{
  EditionStatus, draft, published, superseded, retired, is_published, edition_status, Edition,
  TaxonomyRequest, last_version, is_published_of, supersede, supersede_published, new_edition,
  add_edition, with_edition_status, with_nodes, create_taxonomy, editions_after, create_all,
}

abbrev pub published_count : Text → List Edition → ℕ
published_count id es = count (is_published_of id) es

supersede_one :
    (id other : Text) (e : Edition)
    → is_published_of other (supersede id e) ≡ true
    → is_published_of other e ≡ true
unfolding supersede
supersede_one id other e h = elim (Bool-cases (is_published_of id e)) [
  | inl t ↦ absurd (false≢true (no_published (same e.taxonomy_id other) ∙ (simp t at h)))
  | inr f ↦ simp f at h
]
  where
    no_published : (b : Bool) → false ≡ (b && false)
    no_published b = ground arith

    false≢true : false ≡ true → ⊥
    false≢true h' = ground arith

supersede_own : (id : Text) (e : Edition) → is_published_of id (supersede id e) ≡ false
unfolding supersede
supersede_own id e = elim (Bool-cases (is_published_of id e)) [
  | inl t ↦ simp t (and_false (same e.taxonomy_id id))
  | inr f ↦ simp f
]

-- Publishing leaves no published edition of the taxonomy but the new one, and no more of others.
count-supersede :
    (id other : Text) (es : List Edition)
    → published_count other (map (supersede id) es) ≤ published_count other es
unfolding count
count-supersede id other [] = omega arith
count-supersede id other (e ∷ es) =
    ground (arith, count-supersede id other es, supersede_one id other e)

count-supersede_own :
    (id : Text) (es : List Edition) → published_count id (map (supersede id) es) ≡ 0
unfolding count
count-supersede_own id [] = refl
count-supersede_own id (e ∷ es) = ground (arith, count-supersede_own id es, supersede_own id e)

-- One more row counts as published if it is.
count-one :
    (other : Text) (es : List Edition) (e : Edition)
    → published_count other (es ++ e ∷ [])
      ≡ published_count other es + (if is_published_of other e then 1 else 0)
unfolding count
count-one other es e = count-append (is_published_of other) es (e ∷ []) ∙ refl

unpublished_new :
    (id other : Text) (r : TaxonomyRequest) (status : EditionStatus) (nodes : List Node)
    (es kept : List Edition)
    → is_published status ≡ false
    → published_count other kept ≤ 1
    → published_count other (kept ++ new_edition id r status nodes es ∷ []) ≤ 1
unfolding new_edition
unpublished_new id other r status nodes es kept u h =
    let e = new_edition id r status nodes es in
    let one = count-one other kept e in ground (arith, one, u)

published_new :
    (id other : Text) (r : TaxonomyRequest) (nodes : List Node) (es : List Edition)
    → published_count other es ≤ 1
    → published_count other (map (supersede id) es ++ new_edition id r published nodes es ∷ []) ≤ 1
unfolding new_edition
published_new id other r nodes es h =
    let kept = map (supersede id) es in
    let one = count-one other kept (new_edition id r published nodes es) in
    let fewer = count-supersede id other es in
    elim (Bool-cases (same id other)) [
      | inl t ↦
          let none_left : published_count other kept ≡ 0 =
            subst (λ x. published_count x kept ≡ 0) (eq_of_same id other t)
              (count-supersede_own id es) in
          ground (arith, one, none_left)
      | inr f ↦ ground (arith, one, f, fewer, h)
    ]

add_edition-published :
    (id other : Text) (r : TaxonomyRequest) (status : EditionStatus) (nodes : List Node)
    (es : List Edition)
    → published_count other es ≤ 1
    → published_count other (add_edition id r status nodes es) ≤ 1
unfolding add_edition supersede_published
add_edition-published id other r draft nodes es h =
    unpublished_new id other r draft nodes es es refl h
add_edition-published id other r published nodes es h = published_new id other r nodes es h
add_edition-published id other r superseded nodes es h =
    unpublished_new id other r superseded nodes es es refl h
add_edition-published id other r retired nodes es h =
    unpublished_new id other r retired nodes es es refl h

-- What is kept of the table: at most one edition of each taxonomy is published, and the nodes of every
-- edition are a forest.
abbrev pub IsForest : Edition → Type 0
IsForest e = IsUnique (ids e.nodes) × All (IsRooted e.nodes) e.nodes

pub record IsSound (es : List Edition) : Type 0 where
  pub one_published : (id : Text) → published_count id es ≤ 1
  pub forests : All IsForest es

forests-supersede :
    (id : Text) (es : List Edition) → All IsForest es → All IsForest (map (supersede id) es)
unfolding supersede
forests-supersede id [] h = tt
forests-supersede id (e ∷ es) h = (
  elim (Bool-cases (is_published_of id e)) [ inl t ↦ simp t h.0 | inr f ↦ simp f h.0 ],
  forests-supersede id es h.1,
)

forests-append :
    (es : List Edition) (e : Edition) → All IsForest es → IsForest e → All IsForest (es ++ e ∷ [])
forests-append [] e h f = (f, tt)
forests-append (x ∷ es) e h f = (h.0, forests-append es e h.1 f)

forests-add_edition :
    (id : Text) (r : TaxonomyRequest) (status : EditionStatus) (nodes : List Node)
    (es : List Edition)
    → IsUnique (ids nodes) × All (IsRooted nodes) nodes
    → All IsForest es
    → All IsForest (add_edition id r status nodes es)
unfolding add_edition supersede_published new_edition
forests-add_edition id r published nodes es f h =
    forests-append (map (supersede id) es) _ (forests-supersede id es h) f
forests-add_edition id r draft nodes es f h = forests-append es _ h f
forests-add_edition id r superseded nodes es f h = forests-append es _ h f
forests-add_edition id r retired nodes es f h = forests-append es _ h f

create_taxonomy-IsSound :
    (casefold : Text → Text) (id : Text) (r : TaxonomyRequest) (es : List Edition)
    → IsSound es
    → IsSound (editions_after es (create_taxonomy casefold id r es))
unfolding create_taxonomy
create_taxonomy-IsSound casefold id r es h =
    checked (validate_tree casefold r.nodes) (validate_tree_lem casefold r.nodes)
  where
    stated :
        (nodes : List Node) (o : Option EditionStatus)
        → IsUnique (ids nodes) × All (IsRooted nodes) nodes
        → IsSound (editions_after es (with_edition_status id r nodes es o))
    stated nodes none f = h
    stated nodes (some status) f = record {
      one_published =
          λ other. add_edition-published id other r status nodes es (h.one_published other);
      forests = forests-add_edition id r status nodes es f h.forests;
    }

    checked :
        (c : Checked (List Node))
        → ((ns : List Node) → c ≡ valid ns → IsUnique (ids ns) × All (IsRooted ns) ns)
        → IsSound (editions_after es (with_nodes id r es c))
    checked (invalid e) f = h
    checked (valid nodes) f = stated nodes (edition_status r.status) (f nodes refl)

-- Whatever taxonomies are created, if it was so before: at most one edition of each taxonomy is
-- published, and the nodes of each edition have unique ids, known parents and no cycle.
pub create_all-IsSound :
    (casefold : Text → Text) (rs : List (Text × TaxonomyRequest)) (es : List Edition)
    → IsSound es
    → IsSound (create_all casefold rs es)
unfolding create_all
create_all-IsSound casefold [] es h = h
create_all-IsSound casefold ((id, r) ∷ rs) es h =
    create_all-IsSound casefold rs (editions_after es (create_taxonomy casefold id r es))
      (create_taxonomy-IsSound casefold id r es h)

bound_more :
    (id : Text) (n m : ℕ) (es : List Edition)
    → n ≤ m
    → All (λ e. same e.taxonomy_id id ≡ true → e.version ≤ n) es
    → All (λ e. same e.taxonomy_id id ≡ true → e.version ≤ m) es
bound_more id n m [] le h = tt
bound_more id n m (e ∷ es) le h = (λ t. omega (arith, le, h.0 t), bound_more id n m es le h.1)

last_version_bound :
    (id : Text) (es : List Edition)
    → All (λ e. same e.taxonomy_id id ≡ true → e.version ≤ last_version id es) es
unfolding last_version
last_version_bound id [] = tt
last_version_bound id (e ∷ es) = (
  λ t. ground (arith, t),
  bound_more id (last_version id es) _ es (ground arith) (last_version_bound id es),
)

-- The version of a new edition is later than that of every edition that its taxonomy has.
pub new_edition-version :
    (id : Text) (r : TaxonomyRequest) (status : EditionStatus) (nodes : List Node)
    (es : List Edition)
    → All
        (λ e. same e.taxonomy_id id ≡ true → e.version < (new_edition id r status nodes es).version)
        es
unfolding new_edition
new_edition-version id r status nodes es =
    bound_less (last_version id es) es (last_version_bound id es)
  where
    bound_less :
        (n : ℕ) (xs : List Edition)
        → All (λ (e : Edition). same e.taxonomy_id id ≡ true → e.version ≤ n) xs
        → All (λ (e : Edition). same e.taxonomy_id id ≡ true → e.version < n + 1) xs
    bound_less n [] h = tt
    bound_less n (e ∷ xs) h = (λ t. omega (arith, h.0 t), bound_less n xs h.1)
