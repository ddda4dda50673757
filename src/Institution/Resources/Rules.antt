-- ===== src/Institution/Resources/Rules.antt =====
-- Which status may follow which (apps/institution-server/institution_server/service.py,
-- `IMMUTABLE_TYPES`, `PUBLISHABLE_TYPES` and `ALLOWED_TRANSITIONS`). A type or status that these
-- tables do not name is `other`.
use predixa_learn.Prelude.{Bool, true, false, Text}

pub data ResourceType : Type 0 where
  evidence_version dataset_release : ResourceType
  curriculum_version rubric_version taxonomy_version syllabus_version : ResourceType
  correction_overlay review_task answer_script : ResourceType
  accessibility_description dataset_project : ResourceType
  other : Text → ResourceType

pub data Status : Type 0 where
  draft published superseded retired : Status
  reviewed approved rejected reverted : Status
  opened in_review changes_requested cancelled : Status
  ready_for_review needs_specialist active archived : Status
  other_status : Text → Status

unfoldable pub is_immutable_type : ResourceType → Bool
is_immutable_type evidence_version = true
is_immutable_type dataset_release = true
is_immutable_type _ = false

abbrev pub is_publishable : ResourceType → Bool
is_publishable curriculum_version = true
is_publishable rubric_version = true
is_publishable taxonomy_version = true
is_publishable syllabus_version = true
is_publishable _ = false

-- `ALLOWED_TRANSITIONS.get(resource_type)` is not None
abbrev pub has_rules : ResourceType → Bool
has_rules curriculum_version = true
has_rules rubric_version = true
has_rules taxonomy_version = true
has_rules syllabus_version = true
has_rules correction_overlay = true
has_rules review_task = true
has_rules answer_script = true
has_rules accessibility_description = true
has_rules dataset_project = true
has_rules _ = false

abbrev version_rule : Status → Status → Bool
version_rule draft published = true
version_rule published superseded = true
version_rule published retired = true
version_rule superseded retired = true
version_rule _ _ = false

abbrev correction_rule : Status → Status → Bool
correction_rule draft reviewed = true
correction_rule draft rejected = true
correction_rule reviewed approved = true
correction_rule reviewed rejected = true
correction_rule reviewed draft = true
correction_rule approved reverted = true
correction_rule rejected draft = true
correction_rule _ _ = false

abbrev review_rule : Status → Status → Bool
review_rule opened in_review = true
review_rule opened cancelled = true
review_rule in_review approved = true
review_rule in_review changes_requested = true
review_rule in_review rejected = true
review_rule in_review cancelled = true
review_rule changes_requested in_review = true
review_rule changes_requested cancelled = true
review_rule _ _ = false

abbrev script_rule : Status → Status → Bool
script_rule draft ready_for_review = true
script_rule ready_for_review approved = true
script_rule ready_for_review changes_requested = true
script_rule changes_requested ready_for_review = true
script_rule _ _ = false

abbrev description_rule : Status → Status → Bool
description_rule draft approved = true
description_rule draft rejected = true
description_rule draft needs_specialist = true
description_rule needs_specialist approved = true
description_rule needs_specialist rejected = true
description_rule _ _ = false

abbrev project_rule : Status → Status → Bool
project_rule draft active = true
project_rule draft archived = true
project_rule active archived = true
project_rule _ _ = false

-- `next_status in ALLOWED_TRANSITIONS[resource_type].get(status, set())`
unfoldable pub may_follow : ResourceType → Status → Status → Bool
may_follow curriculum_version s t = version_rule s t
may_follow rubric_version s t = version_rule s t
may_follow taxonomy_version s t = version_rule s t
may_follow syllabus_version s t = version_rule s t
may_follow correction_overlay s t = correction_rule s t
may_follow review_task s t = review_rule s t
may_follow answer_script s t = script_rule s t
may_follow accessibility_description s t = description_rule s t
may_follow dataset_project s t = project_rule s t
may_follow _ s t = false
