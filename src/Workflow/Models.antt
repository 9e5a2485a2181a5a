-- ===== src/Workflow/Models.antt =====
-- scripts/validate_workflow.py: `validate_models` over the parsed configuration and task state: the
-- dependencies between the tasks, the ledger, and the whole.
use Prim.Native.String
use yocto_qemu_edu_lab.Common.{
  ℕ, String, str_eq, lookup, codes, Bool, true, false, ◌&&◌, ◌||◌, Option, none, some, List, [],
  ◌∷◌, ◌++◌, if◌then◌else◌, leb, length, Result, ok, err, ◌>>=◌, ◌==◌,
}
use yocto_qemu_edu_lab.Json.{Json, str, arr, obj, Fields, items, get}
use yocto_qemu_edu_lab.Workflow.Policy.{
  Error, tasks_array, many_in_progress, self_dependency, unknown_dependency, early, ledger_missing,
  is_text, is_executable,
}
use yocto_qemu_edu_lab.Workflow.Tasks.{
  need, need_each, config_errors, Task, Seen, unseen, scan, or_empty,
}

-- The loop over the dependencies.

pub data Raised : Type 0 where
  type_error : Raised

-- `table.get(task_id, [])`
abbrev pub find_dependencies : String → List (String × List String) → List String
find_dependencies i table = or_empty (lookup i table)

abbrev pub is_known : Option Fields → Bool
is_known none = false
is_known (some task) = true

abbrev pub known_errors : String → List (String × Fields) → List String → List Error
known_errors i table [] = []
known_errors i table (d ∷ ds) =
    (if str_eq d i
      then self_dependency i ∷ []
      else need (is_known (lookup d table)) (unknown_dependency i d))
    ++ known_errors i table ds

-- `task.get("status") in {"Ready", "In Progress", "Done"}`: an array or a table cannot be an
-- element of a set, and raises a TypeError that nothing catches
abbrev pub executable : Option Json → Result Raised Bool
executable (some (str s)) = ok (is_executable s)
executable (some (arr vs)) = err type_error
executable (some (obj fs)) = err type_error
executable _ = ok false

-- an unknown dependency is passed over
abbrev pub is_done : Option Fields → Bool
is_done none = true
is_done (some task) = is_text "Done" (get "status" task)

abbrev pub early_errors : String → List (String × Fields) → List String → List Error
early_errors i table ds = need_each (λ d. is_done (lookup d table)) (early i) ds

abbrev pub relation_errors :
    String → Fields → List (String × Fields) → List String → Result Raised (List Error)
relation_errors i task table ds = executable (get "status" task) >>= λ b.
    ok (known_errors i table ds ++ (if b then early_errors i table ds else []))

unfoldable pub dependency_errors : List (String × Fields) → Seen → Result Raised (List Error)
dependency_errors [] s = ok []
dependency_errors ((i, task) ∷ rows) s =
    relation_errors i task s.by_id (find_dependencies i s.dependencies) >>= λ es.
    dependency_errors rows s >>= λ rest. ok (es ++ rest)

-- The ledger.

abbrev starts_with : List ℕ → List ℕ → Bool
starts_with [] text = true
starts_with (c ∷ cs) [] = false
starts_with (c ∷ cs) (d ∷ text) = c == d && starts_with cs text

abbrev after_newline : List ℕ → List ℕ → Bool
after_newline p [] = false
after_newline p (c ∷ text) = c == 10 && starts_with p text || after_newline p text

-- `re.search` of a pattern of literals after `(?m)^`
abbrev pub at_line_start : List ℕ → List ℕ → Bool
at_line_start p text = starts_with p text || after_newline p text

infixl 65 ◌▸◌
abbrev pub ◌▸◌ : String → String → String
s ▸ t = String.◌++◌ s t

abbrev pub tasks_of : Fields → Option (List Json)
tasks_of state = elim (get "tasks" state) [
  | none ↦ some []
  | some (arr vs) ↦ some (items vs)
  | some _ ↦ none
]

abbrev pub no_errors : List Error → Bool
no_errors [] = true
no_errors (e ∷ es) = false

abbrev pub sole : List Task → Option Task
sole (task ∷ []) = some task
sole _ = none

abbrev pub limit_errors : List Task → List Error
limit_errors active = need (leb (length active) 1) (many_in_progress (length active))

-- the errors with the active task, when there is no error and one task is in progress
abbrev pub report : List Error → List Task → List Error × Option Task
report errors active = (errors, if no_errors errors then sole active else none)

module _ (repr : Json → String) where
  -- `str(task.get(key, ""))`; `repr` is Python's text of a value that is not a text
  abbrev pub text_of : Option Json → String
  text_of none = ""
  text_of (some (str s)) = s
  text_of (some v) = repr v

  abbrev pub row_of : String → Fields → String
  row_of i task =
      "| " ▸ i ▸ " | " ▸ text_of (get "milestone" task) ▸ " | " ▸ text_of (get "status" task) ▸ " |"

  -- each id of the set has a row in the table
  abbrev pub in_ledger : String → List (String × Fields) → String → Bool
  in_ledger ledger table i = elim (lookup i table) [
    | none ↦ true
    | some task ↦ at_line_start (codes (row_of i task)) (codes ledger)
  ]

  abbrev pub ledger_errors : Option String → Seen → List Error
  ledger_errors none s = []
  ledger_errors (some ledger) s = need_each (in_ledger ledger s.by_id) ledger_missing s.ids

  unfoldable pub task_report :
      List Error → List Error × Seen → Option String → Result Raised (List Error × Option Task)
  task_report config (found, s) ledger = dependency_errors s.by_id s >>= λ between. ok (
      report (config ++ found ++ limit_errors s.active ++ between ++ ledger_errors ledger s)
        s.active)

  unfoldable pub checked :
      List Error → Option (List Json) → Option String → Result Raised (List Error × Option Task)
  unfolding task_report
  checked config none ledger = ok (config ++ tasks_array ∷ [], none)
  checked config (some tasks) ledger = task_report config (scan tasks unseen) ledger

  unfoldable pub validate_models :
      Fields → Fields → Option String → Result Raised (List Error × Option Task)
  unfolding checked
  validate_models config state ledger = checked (config_errors config state) (tasks_of state) ledger
