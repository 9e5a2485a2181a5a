-- ===== src/Workflow/Policy.antt =====
-- scripts/validate_workflow.py: the messages of `validate_models`, its constants and what it reads
-- of single values.
use yocto_qemu_edu_lab.Common.{
  ℕ, String, str_eq, strip, member, Bool, true, false, ◌&&◌, not, Option, none, some, List, [], ◌∷◌,
  if◌then◌else◌, leb, codes, length, all, ◌==◌,
}
use yocto_qemu_edu_lab.Json.{Json, null, bool, int, float, str, arr, obj, pos, nil, end, items}
use yocto_qemu_edu_lab.Regex.{fullmatch}
use yocto_qemu_edu_lab.Workflow.Floats.{is_zero}
use yocto_qemu_edu_lab.Diagnostics.Patterns.{task_id_pattern}

-- The errors in place of their messages, with what the messages show.
pub data Error : Type 0 where
  workflow_table workflow_fields workflow_statuses workflow_limit : Error
  workflow_policy : String → Error
  commands_array commands_duplicates : Error
  command_missing : String → Error
  config_prefix tasks_prefix tasks_array task_table : Error
  invalid_id duplicate_id : String → Error
  invalid_status : String → String → Error
  no_approval : String → Error
  no_field : String → String → Error
  no_result no_validation no_review reviews_required reviews_completed : String → Error
  missing_reviews : String → List String → Error
  dependencies_array : String → Error
  many_in_progress : ℕ → Error
  self_dependency : String → Error
  unknown_dependency early : String → String → Error
  ledger_missing : String → Error

abbrev pub required_validation_commands : List String
required_validation_commands =
    "python3 scripts/source_lock.py validate" ∷ "python3 scripts/lab_config.py validate"
    ∷ "python3 scripts/validate_workflow.py" ∷ "python3 scripts/validate_ci.py"
    ∷ "python3 scripts/verify_qemu_security.py static"
    ∷ "python3 scripts/verify_diagnostics_schema_lock.py"
    ∷ "python3 -m unittest discover -s tests -p test_*.py"
    ∷ "python3 scripts/update_checksums.py --check" ∷ "git diff --check" ∷ []

abbrev pub max_task_id_length : ℕ
max_task_id_length = 64

abbrev pub expected_statuses : List String
expected_statuses = "Proposed" ∷ "Ready" ∷ "In Progress" ∷ "Blocked" ∷ "Done" ∷ []

abbrev pub required_true_policies : List String
required_true_policies =
    "ready_requires_user_approval" ∷ "done_requires_validation_evidence"
    ∷ "done_requires_review_evidence" ∷ "one_pull_request_per_milestone"
    ∷ "public_actions_require_explicit_scope" ∷ []

abbrev pub workflow_keys : List String
workflow_keys = "statuses" ∷ "max_in_progress" ∷ required_true_policies

-- `set(xs) == set(ys)`
abbrev pub same_set : List String → List String → Bool
same_set xs ys = all (λ x. member x ys) xs && all (λ y. member y xs) ys

-- `len(xs) == len(set(xs))`
abbrev pub distinct : List String → Bool
distinct [] = true
distinct (x ∷ xs) = not (member x xs) && distinct xs

abbrev same_texts : List String → List Json → Bool
same_texts [] [] = true
same_texts (t ∷ ts) (str s ∷ vs) = str_eq s t && same_texts ts vs
same_texts _ _ = false

-- `value == texts` where `texts` is a list of texts
abbrev pub is_texts : List String → Option Json → Bool
is_texts ts (some (arr vs)) = same_texts ts (items vs)
is_texts ts _ = false

abbrev pub is_one : Option Json → Bool
is_one (some (int (pos n))) = n == 1
is_one _ = false

abbrev pub is_true : Option Json → Bool
is_true (some (bool b)) = b
is_true _ = false

abbrev pub is_text : String → Option Json → Bool
is_text t (some (str s)) = str_eq s t
is_text t _ = false

-- `isinstance(item, str) and item`
abbrev pub is_nonempty_text : Json → Bool
is_nonempty_text (str s) = not (str_eq s "")
is_nonempty_text _ = false

abbrev pub texts_in : List Json → List String
texts_in [] = []
texts_in (str s ∷ vs) = s ∷ texts_in vs
texts_in (_ ∷ vs) = texts_in vs

-- An array of non-empty texts, which is empty where the key is absent; `none` where it is
-- something else.
abbrev pub text_array : Option Json → Option (List String)
text_array none = some []
text_array (some (arr vs)) =
    if all is_nonempty_text (items vs) then some (texts_in (items vs)) else none
text_array (some _) = none

-- `value if isinstance(value, str) else ""`
abbrev pub text_or_empty : Option Json → String
text_or_empty (some (str s)) = s
text_or_empty _ = ""

-- `isinstance(value, str) and value.strip()`
abbrev pub is_written : Option Json → Bool
is_written (some (str s)) = not (str_eq (strip s) "")
is_written _ = false

-- `value in (None, "", [])`
abbrev pub is_blank : Option Json → Bool
is_blank none = true
is_blank (some null) = true
is_blank (some (str s)) = str_eq s ""
is_blank (some (arr nil)) = true
is_blank _ = false

-- `bool(value)`
abbrev pub is_truthy : Option Json → Bool
is_truthy none = false
is_truthy (some null) = false
is_truthy (some (bool b)) = b
is_truthy (some (int (pos n))) = not (n == 0)
is_truthy (some (int _)) = true
is_truthy (some (float s)) = not (is_zero s)
is_truthy (some (str s)) = not (str_eq s "")
is_truthy (some (arr nil)) = false
is_truthy (some (arr _)) = true
is_truthy (some (obj end)) = false
is_truthy (some (obj _)) = true

abbrev pub valid_id : String → Bool
valid_id i = leb (length (codes i)) max_task_id_length && fullmatch task_id_pattern i

abbrev pub is_executable : String → Bool
is_executable s = member s ("Ready" ∷ "In Progress" ∷ "Done" ∷ [])
