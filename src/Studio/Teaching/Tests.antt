-- ===== src/Studio/Teaching/Tests.antt =====
-- Taxonomies that are accepted, refused and stored (apps/ocr-studio/app/teaching/store.py).
use predixa_learn.Prelude.{
  has_text, ℕ, Bool, false, ◌≡◌, ◌≢◌, refl, true, Option, none, some, List, [], ◌∷◌, All, Text,
  text, same, first, count, arith,
}
use predixa_learn.Studio.Teaching.Trees.{
  RawNode, Node, no_fuel, cyclic, unknown_parent, Checked, invalid, valid, add_names, clean_node,
  clean_nodes, parent_of, ids, climb, check_parents, validate_tree,
}
use predixa_learn.Studio.Teaching.Hierarchy.{IsUnique, IsRooted, validate_tree_lem}
use predixa_learn.Studio.Teaching.Termination.{validate_tree_ends}
use predixa_learn.Studio.Teaching.Editions.{
  published, edition_status, Edition, TaxonomyRequest, last_version, supersede, supersede_published,
  new_edition, add_edition, create_taxonomy, create_all,
}
use predixa_learn.Studio.Teaching.Corrections.{
  CorrectionStatus, Correction, Table, failed, done, conflict, invalid_value, get_correction, Etag,
  etag_version, CorrectionUpdate, is_row, set_row, update_rows, clashes, write_update,
  correction_status, update_correction, revert_correction,
}
use predixa_learn.Studio.Teaching.Locking.{is_failed, update_correction_lem}
use predixa_learn.Studio.Teaching.Published.{IsSound, create_all-IsSound}

abbrev fold : Text → Text
fold t = t

abbrev raw : Text → Option Text → RawNode
raw id parent = record {
  node_id = id;
  label = id;
  parent_id = parent;
  aliases = [];
  description = [];
  sort_order = none;
}

abbrev forest : List RawNode
forest = raw (text "a") none ∷ raw (text "b") (some (text "a")) ∷ []

abbrev loop : List RawNode
loop = raw (text "a") (some (text "b")) ∷ raw (text "b") (some (text "a")) ∷ []

unfoldable checked : List RawNode → Checked (List Node)
unfolding validate_tree has_text add_names clean_node clean_nodes parent_of climb check_parents same
    first
checked raws = validate_tree fold raws

abbrev nodes : List Node
nodes =
    record {
      node_id = text "a";
      parent_id = none;
      label = text "a";
      aliases = [];
      description = [];
      sort_order = 0;
    }
    ∷ record {
      node_id = text "b";
      parent_id = some (text "a");
      label = text "b";
      aliases = [];
      description = [];
      sort_order = 1;
    }
    ∷ []

accepts_forest : validate_tree fold forest ≡ valid nodes
unfolding checked
accepts_forest = refl

refuses_cycle : validate_tree fold loop ≡ invalid cyclic
unfolding checked
refuses_cycle = refl

refuses_unknown_parent :
    validate_tree fold (raw (text "a") (some (text "c")) ∷ []) ≡ invalid unknown_parent
unfolding checked
refuses_unknown_parent = refl

validate_tree_lem_example : IsUnique (ids nodes) × All (IsRooted nodes) nodes
validate_tree_lem_example = validate_tree_lem fold forest nodes accepts_forest

validate_tree_ends_example : validate_tree fold loop ≢ invalid no_fuel
validate_tree_ends_example = validate_tree_ends fold loop

abbrev request : TaxonomyRequest
request = record {
  name = text "Topics";
  status = text "published";
  nodes = forest;
  actor = text "teacher";
}

abbrev calls : List (Text × TaxonomyRequest)
calls = (text "t", request) ∷ (text "t", request) ∷ []

empty-IsSound : IsSound []
unfolding count
empty-IsSound = record { one_published = λ id. omega arith; forests = tt }

create_all-IsSound_example : IsSound (create_all fold calls [])
create_all-IsSound_example = create_all-IsSound fold calls [] empty-IsSound

abbrev stored : List Edition
stored =
    record {
      taxonomy_id = text "t";
      version = 1;
      name = text "Topics";
      status = published;
      nodes = nodes;
      created_by = text "teacher";
    }
    ∷ []

stores_the_first : create_all fold ((text "t", request) ∷ []) [] ≡ stored
unfolding checked create_all create_taxonomy edition_status add_edition new_edition
    supersede_published supersede last_version
stores_the_first = refl

abbrev correction : Correction
correction = record {
  correction_id = text "c";
  job_id = text "j";
  target_kind = text "line";
  target_id = text "l";
  replacement = "old";
  reason = text "typo";
  actor = text "teacher";
  status = CorrectionStatus.draft;
  source_hash = text "h";
  version = 1;
  updated_at = 5;
}

abbrev table : Table
table = record { corrections = correction ∷ []; source_hash = λ job. some (text "h") }

abbrev change : CorrectionUpdate
change = record {
  status = some (text "approved");
  replacement = some "new";
  reason = none;
  actor = some (text "head");
}

abbrev tag : Option Etag
tag = some (record { names = text "c"; number = some 1 })

abbrev changed : Table
changed = record table {
  corrections =
      record correction {
        replacement = "new";
        actor = text "head";
        status = CorrectionStatus.approved;
        version = 2;
        updated_at = 6;
      }
      ∷ [];
}

approves : update_correction change false (text "c") tag 6 table table ≡ done changed
unfolding checked update_correction get_correction etag_version set_row update_rows clashes
    write_update correction_status count
approves = refl

reverts_only_by_name :
    update_correction
      (record change { status = some (text "reverted") })
      false
      (text "c")
      tag
      6
      table
      table
    ≡ failed invalid_value
unfolding checked update_correction get_correction etag_version set_row update_rows clashes
    write_update correction_status count
reverts_only_by_name = refl

second_revert_conflicts :
    revert_correction (text "c") (text "head") tag 7 table changed ≡ failed conflict
unfolding checked revert_correction update_correction get_correction etag_version set_row
    update_rows clashes write_update correction_status count
second_revert_conflicts = refl

update_correction_lem_example :
    (version : ℕ) × (existing : Correction) × (etag_version tag (text "c") ≡ some version)
    × (get_correction (text "c") table ≡ done (existing, false))
    × (version ≡ existing.version)
    × (count (is_row (text "c") version) table.corrections ≡ 1)
    × ((u' : CorrectionUpdate) (allow_revert' : Bool) (now' : ℕ) (before' : Table)
        → is_failed (update_correction u' allow_revert' (text "c") tag now' before' changed) ≡ true)
update_correction_lem_example =
    update_correction_lem change false (text "c") tag 6 table table changed approves
