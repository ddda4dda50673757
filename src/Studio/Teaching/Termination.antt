-- ===== src/Studio/Teaching/Termination.antt =====
-- The check of a taxonomy ends (apps/ocr-studio/app/teaching/store.py, `_validate_tree`).
use predixa_learn.Prelude.{
  has_text, ℕ, zero, suc, ◌<◌, ◌≤◌, ◌≡◌, ◌≢◌, refl, sym, ap, subst, ◌∙◌, Bool, true, false, not,
  ◌||◌, Option, none, some, List, [], ◌∷◌, first, length, Text, same, eq_of_same, count, count_mono,
  arith, Bool-cases, inl, inr,
}
use predixa_learn.Studio.Teaching.Trees.{
  RawNode, Node, invalid_node, duplicate_name, unknown_parent, cyclic, no_fuel, Checked, invalid,
  valid, add_names, clean_node, clean_nodes, and_node, and_names, parent_of, ids, Climb, at_root,
  cycle, out_of_fuel, climb, is_known, and_climb, check_parents, if_parents, then_parents,
  validate_tree,
}
use predixa_learn.Studio.Teaching.Hierarchy.{same_sym}

abbrev unvisited : List Text → List Text → ℕ
unvisited visited identifiers = count (λ i. not (has_text i visited)) identifiers

unvisited_no_more :
    (visited identifiers : List Text) (id : Text)
    → unvisited (id ∷ visited) identifiers ≤ unvisited visited identifiers
unfolding has_text
unvisited_no_more visited identifiers id =
    count_mono (λ i. not (has_text i (id ∷ visited))) (λ i. not (has_text i visited)) identifiers
      (λ i h. ground arith)

-- Visiting an id that is among the others leaves fewer.
unvisited_less :
    (visited identifiers : List Text) (id : Text)
    → has_text id identifiers ≡ true
    → has_text id visited ≡ false
    → unvisited (id ∷ visited) identifiers < unvisited visited identifiers
unfolding count has_text
unvisited_less visited [] id known new = absurd (ground arith)
unvisited_less visited (i ∷ is) id known new = elim (Bool-cases (same id i)) [
  | inl e ↦
      let fresh : has_text i visited ≡ false =
        subst (λ x. has_text x visited ≡ false) (eq_of_same id i e) new in
      simp (same_sym id i e, fresh) (omega (arith, unvisited_no_more visited is id))
  | inr e ↦ let later = unvisited_less visited is id (simp e at known) new in ground (arith, later)
]

unknown-parent_of :
    (nodes : List Node) (id : Text) → has_text id (ids nodes) ≡ false → parent_of nodes id ≡ none
unfolding parent_of first has_text
unknown-parent_of [] id h = refl
unknown-parent_of (n ∷ ns) id h = ground (arith, unknown-parent_of ns id)

climb_enough :
    (nodes : List Node) (fuel : ℕ) (visited : List Text) (o : Option Text)
    → unvisited visited (ids nodes) < fuel
    → climb nodes fuel visited o ≢ out_of_fuel
unfolding climb
climb_enough nodes fuel visited none enough h = ground arith
climb_enough nodes zero visited (some id) enough h = omega (arith, enough)
climb_enough nodes (suc fuel) visited (some id) enough h = elim (Bool-cases (has_text id visited)) [
  | inl e ↦ cycle≢out (simp e at h)
  | inr e ↦ elim (Bool-cases (has_text id (ids nodes))) [
    | inl known ↦
        climb_enough nodes fuel (id ∷ visited) (parent_of nodes id)
          (omega (arith, enough, unvisited_less visited (ids nodes) id known e)) (simp e at h)
    | inr unknown ↦ root≢out (simp (e, unknown-parent_of nodes id unknown) at h)
  ]
]
  where
    cycle≢out : cycle ≢ out_of_fuel
    cycle≢out h' = ground arith

    root≢out : at_root ≢ out_of_fuel
    root≢out h' = ground arith

count_bound : (p : Text → Bool) (ts : List Text) → count p ts ≤ length ts
unfolding count
count_bound p [] = omega arith
count_bound p (t ∷ ts) = ground (arith, count_bound p ts)

length-ids : (nodes : List Node) → length (ids nodes) ≡ length nodes
length-ids [] = refl
length-ids (n ∷ ns) = ap suc (length-ids ns)

-- Running out of fuel is told from the errors of the code.
abbrev is_out : {A : Type 0} → Checked A → Bool
is_out (invalid no_fuel) = true
is_out (invalid _) = false
is_out (valid a) = false

names-is_out :
    (casefold : Text → Text) (aliases names : List Text)
    → is_out (add_names casefold aliases names) ≡ false
unfolding add_names
names-is_out casefold [] names = refl
names-is_out casefold (a ∷ more) names =
    ground (arith, names-is_out casefold more (casefold a ∷ names))

and_node-is_out : (n : Node) (r : Checked (List Node)) → is_out (and_node n r) ≡ is_out r
and_node-is_out n (invalid no_fuel) = refl
and_node-is_out n (invalid invalid_node) = refl
and_node-is_out n (invalid duplicate_name) = refl
and_node-is_out n (invalid unknown_parent) = refl
and_node-is_out n (invalid cyclic) = refl
and_node-is_out n (valid ns) = refl

and_names-is_out :
    (r : Checked (List Text)) (k : List Text → Checked (List Node))
    → is_out r ≡ false
    → ((names : List Text) → is_out (k names) ≡ false)
    → is_out (and_names r k) ≡ false
and_names-is_out (invalid e) k h rest = ground arith
and_names-is_out (valid names) k h rest = rest names

clean_nodes-is_out :
    (casefold : Text → Text) (index : ℕ) (raws : List RawNode) (identifiers names : List Text)
    → is_out (clean_nodes casefold index raws identifiers names) ≡ false
unfolding clean_nodes
clean_nodes-is_out casefold index [] identifiers names = refl
clean_nodes-is_out casefold index (raw ∷ raws) identifiers names =
    elim (Bool-cases
      (same raw.node_id [] || has_text raw.node_id identifiers || same raw.label [])) [
        | inl e ↦ simp e
        | inr e ↦ simp e (
            and_names-is_out (add_names casefold (raw.label ∷ raw.aliases) names) _
              (names-is_out casefold (raw.label ∷ raw.aliases) names)
              (λ names'.
                and_node-is_out (clean_node raw index) _
                ∙ clean_nodes-is_out casefold (suc index) raws (raw.node_id ∷ identifiers) names'))
      ]

and_climb-is_out :
    (c : Climb) (rest : Checked Unit)
    → c ≢ out_of_fuel
    → is_out rest ≡ false
    → is_out (and_climb c rest) ≡ false
and_climb-is_out at_root rest h r = r
and_climb-is_out cycle rest h r = refl
and_climb-is_out out_of_fuel rest h r = absurd (h refl)

check_parents-is_out : (nodes ns : List Node) → is_out (check_parents nodes ns) ≡ false
unfolding check_parents
check_parents-is_out nodes [] = refl
check_parents-is_out nodes (n ∷ ns) = elim (Bool-cases (is_known n.parent_id (ids nodes))) [
  | inl e ↦ simp e (
      and_climb-is_out _ (check_parents nodes ns)
        (climb_enough nodes (suc (length nodes)) (n.node_id ∷ []) n.parent_id (
          omega (
            arith,
            length-ids nodes,
            count_bound (λ i. not (has_text i (n.node_id ∷ []))) (ids nodes),
          )))
        (check_parents-is_out nodes ns))
  | inr e ↦ simp e
]

if_parents-is_out :
    (nodes : List Node) (r : Checked Unit) → is_out r ≡ false → is_out (if_parents nodes r) ≡ false
if_parents-is_out nodes (invalid e) h = ground arith
if_parents-is_out nodes (valid _) h = refl

then_parents-is_out : (r : Checked (List Node)) → is_out r ≡ false → is_out (then_parents r) ≡ false
then_parents-is_out (invalid e) h = ground arith
then_parents-is_out (valid nodes) h =
    if_parents-is_out nodes (check_parents nodes nodes) (check_parents-is_out nodes nodes)

-- The climbs of the check end: one round more than there are nodes is always enough, so that the
-- result is never the one that stands for a loop that goes on.
pub validate_tree_ends :
    (casefold : Text → Text) (raws : List RawNode) → validate_tree casefold raws ≢ invalid no_fuel
unfolding validate_tree
validate_tree_ends casefold raws h = out≢in (
    sym (ap is_out h)
    ∙ then_parents-is_out (clean_nodes casefold 0 raws [] [])
        (clean_nodes-is_out casefold 0 raws [] []))
  where
    out≢in : true ≢ false
    out≢in h' = ground arith
