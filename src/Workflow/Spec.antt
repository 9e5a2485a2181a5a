-- ===== src/Workflow/Spec.antt =====
-- scripts/validate_workflow.py: what a task state without errors is, said of the list of its tasks
-- and not of the tables that `validate_models` builds.
use yocto_qemu_edu_lab.Common.{
  String, str_eq, Bool, true, ◌&&◌, ◌||◌, not, Option, none, some, List, [], ◌∷◌, map,
  if◌then◌else◌, leb, length, all, codes,
}
use yocto_qemu_edu_lab.Json.{Json, Fields}
use yocto_qemu_edu_lab.Workflow.Policy.{valid_id, distinct, is_executable}
use yocto_qemu_edu_lab.Workflow.Tasks.{id_of, status_of, dependencies_of, own_errors, Task}
use yocto_qemu_edu_lab.Workflow.Models.{no_errors, is_known, is_done, at_line_start, row_of}

-- the first task with an id
abbrev pub find : String → List Fields → Option Fields
find i [] = none
find i (task ∷ tasks) = if str_eq (id_of task) i then some task else find i tasks

abbrev pub active_of : List Fields → List Task
active_of [] = []
active_of (task ∷ tasks) =
    if str_eq (status_of task) "In Progress"
    then record { id = id_of task; status = status_of task } ∷ active_of tasks
    else active_of tasks

-- its id, its status, its approval, its fields and its evidence
abbrev pub is_fine : Fields → Bool
is_fine task = valid_id (id_of task) && no_errors (own_errors task)

-- another task of the state, and a finished one where the task that depends on it is executable
abbrev pub may_depend : List Fields → Fields → String → Bool
may_depend tasks task d =
    not (str_eq d (id_of task))
    && is_known (find d tasks)
    && (not (is_executable (status_of task)) || is_done (find d tasks))

abbrev pub dependencies_fine : List Fields → Fields → Bool
dependencies_fine tasks task = all (may_depend tasks task) (dependencies_of task)

unfoldable pub sound : List Fields → Bool
sound tasks =
    distinct (map id_of tasks)
    && all is_fine tasks
    && leb (length (active_of tasks)) 1
    && all (dependencies_fine tasks) tasks

module _ (repr : Json → String) where
  abbrev pub has_line : String → Fields → Bool
  has_line ledger task = at_line_start (codes (row_of repr (id_of task) task)) (codes ledger)

  -- a ledger that was read has a line for each task
  abbrev pub listed_in : Option String → List Fields → Bool
  listed_in none tasks = true
  listed_in (some ledger) tasks = all (has_line ledger) tasks
