-- ===== src/Studio/Teaching/Editions.antt =====
-- Versions of taxonomies (apps/ocr-studio/app/teaching/store.py, `create_taxonomy`). The table is a
-- list of rows, and a call of the store is one transaction. Texts are stripped.
use predixa_learn.Prelude.{
  ℕ, ◌+◌, Bool, true, false, ◌&&◌, Option, none, some, List, [], ◌∷◌, ◌++◌, if◌then◌else◌, leb, map,
  take, Text, text, same,
}
use predixa_learn.Studio.Teaching.Trees.{
  RawNode, Node, TreeError, Checked, invalid, valid, validate_tree,
}

-- `_VERSION_STATUSES`
pub data EditionStatus : Type 0 where
  draft published superseded retired : EditionStatus

abbrev pub is_published : EditionStatus → Bool
is_published published = true
is_published _ = false

-- The status that a folded text spells.
unfoldable pub edition_status : Text → Option EditionStatus
edition_status t =
    if same t (text "draft")
    then some draft
    else if same t (text "published")
    then some published
    else if same t (text "superseded")
    then some superseded
    else if same t (text "retired")
    then some retired
    else none

-- A row of `taxonomy_versions` with its rows of `taxonomy_nodes`.
pub record Edition : Type 0 where
  pub taxonomy_id : Text
  pub version : ℕ
  pub name : Text
  pub status : EditionStatus
  pub nodes : List Node
  pub created_by : Text

pub record TaxonomyRequest : Type 0 where
  pub name : Text
  pub status : Text
  pub nodes : List RawNode
  pub actor : Text

-- `SELECT COALESCE(MAX(version), 0)`
abbrev larger : ℕ → ℕ → ℕ
larger a b = if leb a b then b else a

unfoldable pub last_version : Text → List Edition → ℕ
last_version id [] = 0
last_version id (e ∷ es) =
    let rest = last_version id es in if same e.taxonomy_id id then larger e.version rest else rest

abbrev pub is_published_of : Text → Edition → Bool
is_published_of id e = same e.taxonomy_id id && is_published e.status

unfoldable pub supersede : Text → Edition → Edition
supersede id e = if is_published_of id e then record e { status = superseded } else e

unfoldable pub supersede_published : EditionStatus → Text → List Edition → List Edition
supersede_published published id es = map (supersede id) es
supersede_published _ id es = es

unfoldable pub new_edition :
    Text → TaxonomyRequest → EditionStatus → List Node → List Edition → Edition
new_edition id r status nodes es = record {
  taxonomy_id = id;
  version = last_version id es + 1;
  name = take 256 r.name;
  status = status;
  nodes = nodes;
  created_by = take 128 r.actor;
}

unfoldable pub add_edition :
    Text → TaxonomyRequest → EditionStatus → List Node → List Edition → List Edition
add_edition id r status nodes es =
    supersede_published status id es ++ new_edition id r status nodes es ∷ []

-- The new table, or the TeachingValidationError: that of the nodes, or the one for the status.
pub data Creation : Type 0 where
  invalid_nodes : TreeError → Creation
  invalid_status : Creation
  created : List Edition → Creation

abbrev pub with_edition_status :
    Text → TaxonomyRequest → List Node → List Edition → Option EditionStatus → Creation
with_edition_status id r nodes es none = invalid_status
with_edition_status id r nodes es (some status) = created (add_edition id r status nodes es)

abbrev pub with_nodes : Text → TaxonomyRequest → List Edition → Checked (List Node) → Creation
with_nodes id r es (invalid e) = invalid_nodes e
with_nodes id r es (valid nodes) = with_edition_status id r nodes es (edition_status r.status)

-- `create_taxonomy`, for the id given or drawn
unfoldable pub create_taxonomy : (Text → Text) → Text → TaxonomyRequest → List Edition → Creation
create_taxonomy casefold id r es = with_nodes id r es (validate_tree casefold r.nodes)

-- The table after a call, which an error leaves as it was.
abbrev pub editions_after : List Edition → Creation → List Edition
editions_after es (created es') = es'
editions_after es _ = es

-- Any sequence of calls, each with its taxonomy.
unfoldable pub create_all :
    (Text → Text) → List (Text × TaxonomyRequest) → List Edition → List Edition
create_all casefold [] es = es
create_all casefold ((id, r) ∷ rs) es =
    create_all casefold rs (editions_after es (create_taxonomy casefold id r es))
