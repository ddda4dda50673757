-- ===== src/Studio/Teaching/Hierarchy.antt =====
-- Accepted taxonomies are forests (apps/ocr-studio/app/teaching/store.py, `_validate_tree`).
use predixa_learn.Prelude.{
  has_text, ℕ, zero, suc, ◌≡◌, ◌≢◌, refl, sym, ap, subst, ◌∙◌, Bool, true, false, ◌||◌, Option,
  none, some, List, [], ◌∷◌, if◌then◌else◌, length, Text, same, same_refl, eq_of_same, All, arith,
  Bool-cases, inl, inr,
}
use predixa_learn.Studio.Teaching.Trees.{
  RawNode, Node, TreeError, invalid_node, unknown_parent, Checked, invalid, valid, add_names,
  clean_node, clean_nodes, and_node, and_names, parent_of, ids, Climb, at_root, cycle, out_of_fuel,
  climb, is_known, and_climb, check_parents, if_parents, then_parents, validate_tree,
}

-- The `k`-th ancestor.
abbrev pub up : List Node → ℕ → Option Text → Option Text
up nodes k none = none
up nodes zero (some id) = some id
up nodes (suc k) (some id) = up nodes k (parent_of nodes id)

-- The node's parent is one of the nodes, and going up from it ends.
pub record IsRooted (nodes : List Node) (n : Node) : Type 0 where
  pub known : is_known n.parent_id (ids nodes) ≡ true
  pub height : ℕ
  pub ends : up nodes height n.parent_id ≡ none

abbrev pub IsUnique : List Text → Type 0
IsUnique [] = Unit
IsUnique (t ∷ ts) = (has_text t ts ≡ false) × IsUnique ts

climb_ends :
    (nodes : List Node) (fuel : ℕ) (visited : List Text) (o : Option Text)
    → climb nodes fuel visited o ≡ at_root
    → (k : ℕ) × (up nodes k o ≡ none)
unfolding climb
climb_ends nodes fuel visited none h = (0, refl)
climb_ends nodes zero visited (some id) h = absurd (ground arith)
climb_ends nodes (suc fuel) visited (some id) h = elim (Bool-cases (has_text id visited)) [
  | inl e ↦ absurd (cycle≢at_root (simp e at h))
  | inr e ↦
      let above = climb_ends nodes fuel (id ∷ visited) (parent_of nodes id) (simp e at h) in
      (suc above.0, above.1)
]
  where
    cycle≢at_root : cycle ≢ at_root
    cycle≢at_root h' = ground arith

pub same_sym : (s t : Text) → same s t ≡ true → same t s ≡ true
same_sym s t h = subst (λ x. same x s ≡ true) (eq_of_same s t h) (same_refl s)

-- What the check of one node's parent returned, by its parts.
check_one-IsRooted :
    (nodes : List Node) (n : Node) (rest : Checked Unit)
    → (if is_known n.parent_id (ids nodes)
        then and_climb (climb nodes (suc (length nodes)) (n.node_id ∷ []) n.parent_id) rest
        else invalid unknown_parent)
      ≡ valid tt
    → IsRooted nodes n × (rest ≡ valid tt)
check_one-IsRooted nodes n rest h = elim (Bool-cases (is_known n.parent_id (ids nodes))) [
  | inl e ↦
      climbed (climb nodes (suc (length nodes)) (n.node_id ∷ []) n.parent_id) refl e (simp e at h)
  | inr e ↦ absurd (error≢valid (simp e at h))
]
  where
    unknown : Checked Unit
    unknown = invalid unknown_parent

    error≢valid : unknown ≢ valid tt
    error≢valid h' = ground arith

    climbed :
        (c : Climb)
        → climb nodes (suc (length nodes)) (n.node_id ∷ []) n.parent_id ≡ c
        → is_known n.parent_id (ids nodes) ≡ true
        → and_climb c rest ≡ valid tt
        → IsRooted nodes n × (rest ≡ valid tt)
    climbed at_root e known h' =
        let above = climb_ends nodes (suc (length nodes)) (n.node_id ∷ []) n.parent_id e in
        (record { known = known; height = above.0; ends = above.1 }, h')
    climbed cycle e known h' = absurd (ground arith)
    climbed out_of_fuel e known h' = absurd (ground arith)

check_parents-IsRooted :
    (nodes ns : List Node) → check_parents nodes ns ≡ valid tt → All (IsRooted nodes) ns
unfolding check_parents
check_parents-IsRooted nodes [] h = tt
check_parents-IsRooted nodes (n ∷ ns) h =
    let parts = check_one-IsRooted nodes n (check_parents nodes ns) h in
    (parts.0, check_parents-IsRooted nodes ns parts.1)

-- The ids of the nodes that the first loop returns are unique, and none is one that it had before.
abbrev pub IsApart : List Text → List Node → Type 0
IsApart identifiers ns = IsUnique (ids ns) × All (λ i. has_text i identifiers ≡ false) (ids ns)

apart_sym : (s t : Text) → same s t ≡ false → same t s ≡ false
apart_sym s t h = elim (Bool-cases (same t s)) [
  | inl e ↦ absurd (true≢false (sym (same_sym t s e) ∙ h))
  | inr e ↦ e
]
  where
    true≢false : true ≢ false
    true≢false h' = ground arith

later-IsApart :
    (id : Text) (identifiers is : List Text)
    → All (λ i. has_text i (id ∷ identifiers) ≡ false) is
    → (has_text id is ≡ false) × All (λ i. has_text i identifiers ≡ false) is
unfolding has_text
later-IsApart id identifiers [] h = (refl, tt)
later-IsApart id identifiers (i ∷ is) h =
    let rest = later-IsApart id identifiers is h.1 in
    let apart = apart_sym i id (ground (arith, h.0)) in
    (ground (arith, apart, rest.0), (ground (arith, h.0), rest.1))

abbrev nodes_of : Checked (List Node) → List Node
nodes_of (invalid e) = []
nodes_of (valid ns) = ns

-- A node is put before the nodes that the rest of the loop returns.
and_node-IsApart :
    (n : Node) (identifiers : List Text) (r : Checked (List Node)) (ns : List Node)
    → has_text n.node_id identifiers ≡ false
    → ((ms : List Node) → r ≡ valid ms → IsApart (n.node_id ∷ identifiers) ms)
    → and_node n r ≡ valid ns
    → IsApart identifiers ns
and_node-IsApart n identifiers (invalid e) ns new rest h = absurd (ground arith)
and_node-IsApart n identifiers (valid ms) ns new rest h =
    let apart = rest ms refl in
    let later = later-IsApart n.node_id identifiers (ids ms) apart.1 in
    subst (IsApart identifiers) (ap nodes_of h) ((later.0, apart.0), (new, later.1))

and_names-IsApart :
    (identifiers : List Text) (r : Checked (List Text)) (k : List Text → Checked (List Node))
    (ns : List Node)
    → ((names : List Text) → k names ≡ valid ns → IsApart identifiers ns)
    → and_names r k ≡ valid ns
    → IsApart identifiers ns
and_names-IsApart identifiers (invalid e) k ns rest h = absurd (ground arith)
and_names-IsApart identifiers (valid names) k ns rest h = rest names h

guard_passed :
    (b : Bool) (e : TreeError) (r : Checked (List Node)) (ns : List Node)
    → (if b then invalid e else r) ≡ valid ns
    → (b ≡ false) × (r ≡ valid ns)
guard_passed true e r ns h = absurd (ground arith)
guard_passed false e r ns h = (refl, h)

clean_nodes-IsApart :
    (casefold : Text → Text) (index : ℕ) (raws : List RawNode) (identifiers names : List Text)
    (ns : List Node)
    → clean_nodes casefold index raws identifiers names ≡ valid ns
    → IsApart identifiers ns
unfolding clean_nodes clean_node
clean_nodes-IsApart casefold index [] identifiers names ns h =
    subst (IsApart identifiers) (ap nodes_of h) (tt, tt)
clean_nodes-IsApart casefold index (raw ∷ raws) identifiers names ns h =
    let passed =
      guard_passed (same raw.node_id [] || has_text raw.node_id identifiers || same raw.label [])
        invalid_node _ ns h in
    let new : has_text raw.node_id identifiers ≡ false = ground (arith, passed.0) in
    and_names-IsApart identifiers (add_names casefold (raw.label ∷ raw.aliases) names) _ ns
      (λ names'.
        and_node-IsApart (clean_node raw index) identifiers
          (clean_nodes casefold (suc index) raws (raw.node_id ∷ identifiers) names') ns new
          (clean_nodes-IsApart casefold (suc index) raws (raw.node_id ∷ identifiers) names'))
      passed.1

parents_checked :
    (nodes ns : List Node) (r : Checked Unit)
    → if_parents nodes r ≡ valid ns
    → (r ≡ valid tt) × (nodes ≡ ns)
parents_checked nodes ns (invalid e) h = absurd (ground arith)
parents_checked nodes ns (valid _) h = (refl, ap nodes_of h)

-- A list of nodes that is accepted is a forest: its ids are unique, every parent is one of the nodes,
-- and going up from any node ends at a root.
pub validate_tree_lem :
    (casefold : Text → Text) (raws : List RawNode) (ns : List Node)
    → validate_tree casefold raws ≡ valid ns
    → IsUnique (ids ns) × All (IsRooted ns) ns
unfolding validate_tree
validate_tree_lem casefold raws ns h =
    checked (clean_nodes casefold 0 raws [] []) (clean_nodes-IsApart casefold 0 raws [] []) h
  where
    checked :
        (r : Checked (List Node))
        → ((ms : List Node) → r ≡ valid ms → IsApart [] ms)
        → then_parents r ≡ valid ns
        → IsUnique (ids ns) × All (IsRooted ns) ns
    checked (invalid e) apart h' = absurd (ground arith)
    checked (valid ms) apart h' =
        let both = parents_checked ms ns (check_parents ms ms) h' in
        subst (λ ks. IsUnique (ids ks) × All (IsRooted ks) ks) both.1
          ((apart ms refl).0, check_parents-IsRooted ms ms both.0)
