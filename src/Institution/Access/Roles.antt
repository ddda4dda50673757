-- ===== src/Institution/Access/Roles.antt =====
-- The permissions of each role (apps/institution-server/institution_server/security.py,
-- `ROLE_PERMISSIONS`).
use predixa_learn.Prelude.{List, [], ◌∷◌, ◌++◌, if◌then◌else◌, Text, text, same}

abbrev institution_admin_permissions : List Text
institution_admin_permissions = text "*" ∷ []

abbrev curriculum_manager_permissions : List Text
curriculum_manager_permissions =
    text "archive:read"
    ∷ text "curriculum:read"
    ∷ text "curriculum:write"
    ∷ text "rubric:read"
    ∷ text "rubric:write"
    ∷ text "review:read"
    ∷ text "review:write"
    ∷ text "teaching:read"
    ∷ text "teaching:write"
    ∷ text "revision:read"
    ∷ text "revision:write"
    ∷ []

abbrev teacher_permissions : List Text
teacher_permissions =
    text "archive:read"
    ∷ text "archive:write"
    ∷ text "curriculum:read"
    ∷ text "rubric:read"
    ∷ text "review:read"
    ∷ text "review:write"
    ∷ text "answer:read"
    ∷ text "answer:write"
    ∷ text "accessibility:read"
    ∷ text "dataset:read"
    ∷ text "dataset:contribute"
    ∷ text "teaching:read"
    ∷ text "teaching:write"
    ∷ text "revision:read"
    ∷ text "revision:write"
    ∷ []

abbrev reviewer_permissions : List Text
reviewer_permissions =
    text "archive:read"
    ∷ text "curriculum:read"
    ∷ text "rubric:read"
    ∷ text "review:read"
    ∷ text "review:write"
    ∷ text "answer:read"
    ∷ text "answer:moderate"
    ∷ text "teaching:read"
    ∷ text "teaching:write"
    ∷ text "revision:read"
    ∷ []

abbrev accessibility_reviewer_permissions : List Text
accessibility_reviewer_permissions =
    text "archive:read" ∷ text "accessibility:read" ∷ text "accessibility:verify" ∷ []

abbrev data_steward_permissions : List Text
data_steward_permissions =
    text "archive:read"
    ∷ text "dataset:read"
    ∷ text "dataset:write"
    ∷ text "dataset:release"
    ∷ text "audit:read"
    ∷ text "identity:write"
    ∷ text "identity:resolve"
    ∷ []

abbrev integration_admin_permissions : List Text
integration_admin_permissions =
    text "integration:read"
    ∷ text "integration:write"
    ∷ text "worker:read"
    ∷ text "worker:write"
    ∷ text "audit:read"
    ∷ text "identity:resolve"
    ∷ []

abbrev student_permissions : List Text
student_permissions =
    text "answer:read:self"
    ∷ text "archive:read:assigned"
    ∷ text "revision:read"
    ∷ text "revision:progress"
    ∷ []

abbrev worker_permissions : List Text
worker_permissions = text "worker:claim" ∷ text "worker:publish" ∷ []

-- `ROLE_PERMISSIONS.get(role, set())`
unfoldable pub role_permissions : Text → List Text
role_permissions role =
    if same role (text "institution_admin")
    then institution_admin_permissions
    else if same role (text "curriculum_manager")
    then curriculum_manager_permissions
    else if same role (text "teacher")
    then teacher_permissions
    else if same role (text "reviewer")
    then reviewer_permissions
    else if same role (text "accessibility_reviewer")
    then accessibility_reviewer_permissions
    else if same role (text "data_steward")
    then data_steward_permissions
    else if same role (text "integration_admin")
    then integration_admin_permissions
    else if same role (text "student")
    then student_permissions
    else if same role (text "worker")
    then worker_permissions
    else []

-- The union of the roles' permissions
unfoldable pub all_permissions : List Text → List Text
all_permissions [] = []
all_permissions (role ∷ roles) = role_permissions role ++ all_permissions roles
