-- ===== src/Workflow/Examples.antt =====
-- Tests of the model of scripts/validate_workflow.py on one task state, and its theorems there.
use yocto_qemu_edu_lab.Common.{
  String, ◌≡◌, refl, strip, lookup, insert, true, Option, none, some, List, [], ◌∷◌, map, Result,
  ok, err, all, not,
}
use yocto_qemu_edu_lab.Workflow.Floats.{is_zero}
use yocto_qemu_edu_lab.Json.{
  Json, bool, int, str, arr, obj, pos, Items, nil, cons, Fields, end, field, get,
}
use yocto_qemu_edu_lab.Regex.{fullmatch}
use yocto_qemu_edu_lab.Workflow.Policy.{
  Error, expected_statuses, required_true_policies, required_validation_commands,
}
use yocto_qemu_edu_lab.Workflow.Tasks.{config_errors, scan, own_errors, Task}
use yocto_qemu_edu_lab.Workflow.Models.{
  validate_models, dependency_errors, tasks_of, Raised, type_error, sole,
}
use yocto_qemu_edu_lab.Workflow.Spec.{sound, listed_in, active_of}
use yocto_qemu_edu_lab.Workflow.Sound.{validate_models-sound}
use yocto_qemu_edu_lab.Workflow.Complete.{validate_models_complete}

abbrev texts : List String → Items
texts [] = nil
texts (t ∷ ts) = cons (str t) (texts ts)

abbrev policies : List String → Fields
policies [] = end
policies (p ∷ ps) = field p (bool true) (policies ps)

abbrev config : Fields
config =
    field "workflow"
      (obj (
        field "statuses" (arr (texts expected_statuses))
          (field "max_in_progress" (int (pos 1)) (policies required_true_policies))))
      (field "validation_commands" (arr (texts required_validation_commands))
        (field "task_id_prefix" (str "A") end))

-- the fields that every task has, before the others
abbrev task_with : String → String → Fields → Fields
task_with i status more = field "id" (str i) (
    field "status" (str status) (
      field "approval" (str "yes") (
        field "milestone" (str "M1") (
          field "title" (str "t") (
            field "outcome" (str "o") (
              field "scope" (str "s")
                (field "acceptance_criteria" (str "c") (field "validation" (str "v") more))))))))

abbrev finished : Fields
finished = task_with "A001" "Done" (
    field "result" (str "r")
      (field "validation_evidence" (str "e") (field "review_evidence" (str "e") end)))

abbrev running : Fields
running = task_with "A002" "In Progress" (field "dependencies" (arr (texts ("A001" ∷ []))) end)

abbrev state : Fields
state =
    field "task_id_prefix" (str "A")
      (field "tasks" (arr (cons (obj finished) (cons (obj running) nil))) end)

abbrev ledger : Option String
ledger = some "| A001 | M1 | Done |\n| A002 | M1 | In Progress |"

abbrev no_repr : Json → String
no_repr v = ""

abbrev current : Task
current = record { id = "A002"; status = "In Progress" }

-- A proof that opens this opens all that `validate_models` calls.
run : Fields → Result Raised (List Error × Option Task)
unfolding validate_models scan dependency_errors own_errors lookup insert get fullmatch strip
run s = validate_models no_repr config s ledger

accepted : validate_models no_repr config state ledger ≡ ok ([], some current)
unfolding run
accepted = refl

-- A status that is an array passes the loop over the tasks, and stops the one over the dependencies.
stopped :
    validate_models no_repr config
      (field "tasks"
        (arr (cons (obj (field "id" (str "A001") (field "status" (arr nil) end))) nil))
        end)
      none
    ≡ err type_error
unfolding run
stopped = refl

validate_models-sound_example :
    (tasks : List Fields) × (tasks_of state ≡ some (map obj tasks))
    × (sound tasks ≡ true)
    × (listed_in no_repr ledger tasks ≡ true)
    × (some current ≡ sole (active_of tasks))
validate_models-sound_example =
    validate_models-sound no_repr config state ledger (some current) accepted

config_fine : config_errors config state ≡ []
unfolding run
config_fine = refl

state_tasks : tasks_of state ≡ some (map obj (finished ∷ running ∷ []))
unfolding run
state_tasks = refl

tasks_sound : sound (finished ∷ running ∷ []) ≡ true
unfolding run sound
tasks_sound = refl

lines_there : listed_in no_repr ledger (finished ∷ running ∷ []) ≡ true
unfolding run
lines_there = refl

validate_models_complete_example :
    validate_models no_repr config state ledger ≡ ok ([], some current)
unfolding run
validate_models_complete_example =
    validate_models_complete no_repr config state ledger (finished ∷ running ∷ []) config_fine
      state_tasks tasks_sound lines_there

-- texts that Python rounds to zero, and texts that it does not
zeros : all is_zero ("0.0" ∷ "-0.0" ∷ "0.00" ∷ "0e0" ∷ "+0.0e5" ∷ "1e-324" ∷ "2e-324" ∷ []) ≡ true
unfolding is_zero
zeros = refl

others :
    all
      (λ text. not (is_zero text))
      ("0.1" ∷ "5e-324" ∷ "1e3" ∷ "0.001e2" ∷ "inf" ∷ "2026-01-01" ∷ "00:00:00" ∷ [])
    ≡ true
unfolding is_zero
others = refl
