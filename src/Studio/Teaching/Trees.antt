-- ===== src/Studio/Teaching/Trees.antt =====
-- The check of a taxonomy's nodes (apps/ocr-studio/app/teaching/store.py, `_validate_tree`). Texts are
-- stripped; `casefold` is Python's.
use predixa_learn.Prelude.{
  has_text, ℕ, zero, suc, Bool, true, ◌||◌, Option, none, some, List, [], ◌∷◌, if◌then◌else◌, first,
  length, take, Text, same,
}

-- A node as it is given, after its texts are stripped: its id, given or drawn, and a parent where it
-- is not empty.
pub record RawNode : Type 0 where
  pub node_id : Text
  pub label : Text
  pub parent_id : Option Text
  pub aliases : List Text
  pub description : Text
  pub sort_order : Option ℕ

pub record Node : Type 0 where
  pub node_id : Text
  pub parent_id : Option Text
  pub label : Text
  pub aliases : List Text
  pub description : Text
  pub sort_order : ℕ

-- The TeachingValidationErrors; `no_fuel` is none of them.
pub data TreeError : Type 0 where
  invalid_node duplicate_name unknown_parent cyclic no_fuel : TreeError

pub data Checked (A : Type 0) : Type 0 where
  invalid : TreeError → Checked A
  valid : A → Checked A

-- The loop over a node's label and aliases, which returns the set of folded names.
unfoldable pub add_names : (Text → Text) → List Text → List Text → Checked (List Text)
add_names casefold [] names = valid names
add_names casefold (a ∷ more) names =
    let rest = add_names casefold more (casefold a ∷ names) in
    if has_text (casefold a) names then invalid duplicate_name else rest

abbrev sort_order_or : Option ℕ → ℕ → ℕ
sort_order_or none index = index
sort_order_or (some n) index = n

unfoldable pub clean_node : RawNode → ℕ → Node
clean_node raw index = record {
  node_id = raw.node_id;
  parent_id = raw.parent_id;
  label = take 256 raw.label;
  aliases = take 50 raw.aliases;
  description = take 2000 raw.description;
  sort_order = sort_order_or raw.sort_order index;
}

abbrev pub and_node : Node → Checked (List Node) → Checked (List Node)
and_node n (invalid e) = invalid e
and_node n (valid ns) = valid (n ∷ ns)

abbrev pub and_names : Checked (List Text) → (List Text → Checked (List Node)) → Checked (List Node)
and_names (invalid e) k = invalid e
and_names (valid names) k = k names

-- The first loop, with the sets `identifiers` and `aliases`.
unfoldable pub clean_nodes :
    (Text → Text) → ℕ → List RawNode → List Text → List Text → Checked (List Node)
clean_nodes casefold index [] identifiers names = valid []
clean_nodes casefold index (raw ∷ raws) identifiers names =
    if same raw.node_id [] || has_text raw.node_id identifiers || same raw.label []
    then invalid invalid_node
    else and_names (add_names casefold (raw.label ∷ raw.aliases) names) (λ names'.
      and_node (clean_node raw index)
        (clean_nodes casefold (suc index) raws (raw.node_id ∷ identifiers) names'))

-- `parents.get(node_id)`
abbrev pub parent_or_none : Option Node → Option Text
parent_or_none none = none
parent_or_none (some n) = n.parent_id

unfoldable pub parent_of : List Node → Text → Option Text
parent_of nodes id = parent_or_none (first (λ (n : Node). same id n.node_id) nodes)

abbrev pub ids : List Node → List Text
ids [] = []
ids (n ∷ ns) = n.node_id ∷ ids ns

-- How the climb from a node to its root ends.
pub data Climb : Type 0 where
  at_root cycle out_of_fuel : Climb

-- The `while` loop; each round visits one id more.
unfoldable pub climb : List Node → ℕ → List Text → Option Text → Climb
climb nodes fuel visited none = at_root
climb nodes zero visited (some current) = out_of_fuel
climb nodes (suc fuel) visited (some current) =
    let rest = climb nodes fuel (current ∷ visited) (parent_of nodes current) in
    if has_text current visited then cycle else rest

abbrev pub is_known : Option Text → List Text → Bool
is_known none identifiers = true
is_known (some p) identifiers = has_text p identifiers

abbrev pub and_climb : Climb → Checked Unit → Checked Unit
and_climb at_root rest = rest
and_climb cycle rest = invalid cyclic
and_climb out_of_fuel rest = invalid no_fuel

-- The second loop; one round more than there are nodes is enough for each climb.
unfoldable pub check_parents : List Node → List Node → Checked Unit
check_parents nodes [] = valid tt
check_parents nodes (n ∷ ns) =
    let rest = check_parents nodes ns in
    if is_known n.parent_id (ids nodes)
    then and_climb (climb nodes (suc (length nodes)) (n.node_id ∷ []) n.parent_id) rest
    else invalid unknown_parent

abbrev pub if_parents : List Node → Checked Unit → Checked (List Node)
if_parents nodes (invalid e) = invalid e
if_parents nodes (valid _) = valid nodes

abbrev pub then_parents : Checked (List Node) → Checked (List Node)
then_parents (invalid e) = invalid e
then_parents (valid nodes) = if_parents nodes (check_parents nodes nodes)

-- `_validate_tree`
unfoldable pub validate_tree : (Text → Text) → List RawNode → Checked (List Node)
validate_tree casefold raws = then_parents (clean_nodes casefold 0 raws [] [])
