-- ===== src/Workflow/Tasks.antt =====
-- scripts/validate_workflow.py: the checks of `validate_models` on the configuration and on each
-- task. A set is the list of its elements, with the newest first: the order in which the source
-- walks one is not specified.

use yocto_qemu_edu_lab.Common.{
  String, str_eq, member, insert, Bool, true, false, ◌||◌, not, Option, none, some, List, [], ◌∷◌,
  ◌++◌, if◌then◌else◌,
}
use yocto_qemu_edu_lab.Json.{Json, obj, Fields, end, keys, get}
use yocto_qemu_edu_lab.Workflow.Policy.{
  Error, workflow_table, workflow_fields, workflow_statuses, workflow_limit, workflow_policy,
  commands_array, commands_duplicates, command_missing, config_prefix, tasks_prefix, task_table,
  invalid_id, duplicate_id, invalid_status, no_approval, no_field, no_result, no_validation,
  no_review, reviews_required, reviews_completed, missing_reviews, dependencies_array,
  required_validation_commands, expected_statuses, required_true_policies, workflow_keys, same_set,
  distinct, is_texts, is_one, is_true, is_text, text_array, text_or_empty, is_written, is_blank,
  is_truthy, valid_id, is_executable,
}

-- the error, unless the test holds
abbrev pub need : Bool → Error → List Error
need true e = []
need false e = e ∷ []

-- an error for each text that fails the test
abbrev pub need_each : (String → Bool) → (String → Error) → List String → List Error
need_each test error [] = []
need_each test error (t ∷ ts) = need (test t) (error t) ++ need_each test error ts

abbrev pub table_errors : Fields → List Error
table_errors w =
    need (same_set (keys w) workflow_keys) workflow_fields
    ++ need (is_texts expected_statuses (get "statuses" w)) workflow_statuses
    ++ need (is_one (get "max_in_progress" w)) workflow_limit
    ++ need_each (λ p. is_true (get p w)) workflow_policy required_true_policies

abbrev pub workflow_errors : Option Json → List Error
workflow_errors none = table_errors end
workflow_errors (some (obj w)) = table_errors w
workflow_errors (some _) = workflow_table ∷ table_errors end

abbrev pub listed_errors : List String → List Error
listed_errors commands =
    need (distinct commands) commands_duplicates
    ++ need_each (λ c. member c commands) command_missing required_validation_commands

abbrev pub command_errors : Option (List String) → List Error
command_errors none = commands_array ∷ listed_errors []
command_errors (some commands) = listed_errors commands

abbrev pub config_errors : Fields → Fields → List Error
config_errors config state =
    workflow_errors (get "workflow" config)
    ++ command_errors (text_array (get "validation_commands" config))
    ++ need (is_text "A" (get "task_id_prefix" config)) config_prefix
    ++ need (is_text "A" (get "task_id_prefix" state)) tasks_prefix

-- The loop over the tasks.

abbrev pub id_of : Fields → String
id_of task = text_or_empty (get "id" task)

abbrev pub status_of : Fields → String
status_of task = text_or_empty (get "status" task)

abbrev pub or_empty : Option (List String) → List String
or_empty none = []
or_empty (some ts) = ts

abbrev pub is_array : Option (List String) → Bool
is_array none = false
is_array (some ts) = true

abbrev pub dependencies_of : Fields → List String
dependencies_of task = or_empty (text_array (get "dependencies" task))

-- The texts of the first list that are not in the second: their order in the message is sorted in
-- the source.
abbrev pub missing_from : List String → List String → List String
missing_from [] done = []
missing_from (r ∷ rs) done =
    if member r done then missing_from rs done else r ∷ missing_from rs done

abbrev pub is_nil : List String → Bool
is_nil [] = true
is_nil (t ∷ ts) = false

abbrev pub review_errors : String → Option (List String) → Option (List String) → List Error
review_errors i required completed =
    let missing = missing_from (or_empty required) (or_empty completed) in
    need (is_array required) (reviews_required i)
    ++ need (is_array completed) (reviews_completed i)
    ++ need (is_nil missing) (missing_reviews i missing)

abbrev pub done_errors : String → Fields → List Error
done_errors i task =
    need (is_written (get "result" task)) (no_result i)
    ++ need (is_truthy (get "validation_evidence" task)) (no_validation i)
    ++ need (is_truthy (get "review_evidence" task)) (no_review i)
    ++ review_errors i (text_array (get "reviews_required" task))
        (text_array (get "reviews_completed" task))

abbrev pub required_fields : List String
required_fields =
    "milestone" ∷ "title" ∷ "outcome" ∷ "scope" ∷ "acceptance_criteria" ∷ "validation" ∷ []

-- the errors of one task that do not depend on the others
unfoldable pub own_errors : Fields → List Error
own_errors task =
    let i = id_of task in
    let status = status_of task in
    need (member status expected_statuses) (invalid_status i status)
    ++ need (not (is_executable status) || is_written (get "approval" task)) (no_approval i)
    ++ need_each (λ f. not (is_blank (get f task))) (no_field i) required_fields
    ++ (if str_eq status "Done" then done_errors i task else [])
    ++ need (is_array (text_array (get "dependencies" task))) (dependencies_array i)

pub record Task : Type 0 where
  pub id : String
  pub status : String

pub record Seen : Type 0 where
  pub ids : List String
  pub active : List Task
  pub by_id : List (String × Fields)
  pub dependencies : List (String × List String)

abbrev pub unseen : Seen
unseen = record { ids = []; active = []; by_id = []; dependencies = [] }

abbrev pub see : Fields → Seen → Seen
see task s = record {
  ids = if member (id_of task) s.ids then s.ids else id_of task ∷ s.ids;
  active =
      if str_eq (status_of task) "In Progress"
      then s.active ++ record { id = id_of task; status = status_of task } ∷ []
      else s.active;
  by_id = insert (id_of task) task s.by_id;
  dependencies = insert (id_of task) (dependencies_of task) s.dependencies;
}

abbrev pub task_errors : Fields → List String → List Error
task_errors task ids =
    need (valid_id (id_of task)) (invalid_id (id_of task))
    ++ need (not (member (id_of task) ids)) (duplicate_id (id_of task))
    ++ own_errors task

unfoldable pub scan : List Json → Seen → List Error × Seen
scan [] s = ([], s)
scan (obj task ∷ tasks) s =
    let rest = scan tasks (see task s) in (task_errors task s.ids ++ rest.0, rest.1)
scan (_ ∷ tasks) s = let rest = scan tasks s in (task_table ∷ rest.0, rest.1)
