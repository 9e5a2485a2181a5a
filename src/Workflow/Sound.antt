-- ===== src/Workflow/Sound.antt =====
-- scripts/validate_workflow.py: a run of `validate_models` without errors.
use yocto_qemu_edu_lab.Common.{
  String, ◌≡◌, refl, sym, ap, subst, ◌∙◌, member, lookup, Bool, true, false, Option, none, some,
  List, [], ◌∷◌, ◌++◌, map, codes, if◌then◌else◌, all, All, and-true, leb, length, Result, ok, err,
  >>=-eq-ok,
}
use yocto_qemu_edu_lab.Json.{Json, obj, Fields}
use yocto_qemu_edu_lab.Workflow.Policy.{
  Error, distinct, many_in_progress, tasks_array, ledger_missing,
}
use yocto_qemu_edu_lab.Workflow.Tasks.{
  config_errors, id_of, dependencies_of, Task, Seen, unseen, scan,
}
use yocto_qemu_edu_lab.Workflow.Models.{
  Raised, no_errors, dependency_errors, sole, limit_errors, ledger_errors, task_report, tasks_of,
  validate_models, checked, row_of, at_line_start, in_ledger,
}
use yocto_qemu_edu_lab.Workflow.Spec.{
  active_of, is_fine, dependencies_fine, sound, has_line, listed_in,
}
use yocto_qemu_edu_lab.Workflow.Scan.{
  no_errors-append, no_errors-need, no_errors-need_each, rows, scan-Scanned,
}
use yocto_qemu_edu_lab.Workflow.Related.{Owns, rows-Owns, relations-fine}

module _ (repr : Json → String) (ledger : String) where
  all-listed :
      (table : List (String × Fields)) (tasks : List Fields)
      → All (Owns (λ t. t) table) tasks
      → all (in_ledger repr ledger table) (map id_of tasks) ≡ true
      → all (has_line repr ledger) tasks ≡ true
  all-listed table [] o h = refl
  all-listed table (t ∷ ts) (o, os) h =
      let (here, there) = and-true _ _ h in
      let line =
        subst
          (λ o.
            elim o [
              | none ↦ true
              | some task ↦ at_line_start (codes (row_of repr (id_of t) task)) (codes ledger)
            ]
            ≡ true)
          o here in
      rw (line, all-listed table ts os there) refl

ledger-listed :
    (repr : Json → String) (ledger : Option String) (tasks : List Fields) (s : Seen)
    → s.by_id ≡ rows tasks
    → distinct (map id_of tasks) ≡ true
    → ((p : String → Bool) → all p s.ids ≡ true → all p (map id_of tasks) ≡ true)
    → no_errors (ledger_errors repr ledger s) ≡ true
    → listed_in repr ledger tasks ≡ true
ledger-listed repr none tasks s t d l h = refl
ledger-listed repr (some ledger) tasks s t d l h =
    let test = in_ledger repr ledger s.by_id in
    let each = l test (sym (no_errors-need_each test ledger_missing s.ids) ∙ h) in
    all-listed repr ledger (rows tasks) tasks (rows-Owns (λ t. t) tasks d)
      (subst (λ m. all (in_ledger repr ledger m) (map id_of tasks) ≡ true) t each)

-- What a report without errors says of its parts.
pub record Clean (repr : Json → String) (found : List Error) (s : Seen) (ledger : Option String)
    (active : Option Task) : Type 0 where
  pub found_none : no_errors found ≡ true
  pub few : leb (length s.active) 1 ≡ true
  pub between : List Error
  pub between_made : dependency_errors s.by_id s ≡ ok between
  pub between_none : no_errors between ≡ true
  pub ledger_none : no_errors (ledger_errors repr ledger s) ≡ true
  pub the_active : active ≡ sole s.active

abbrev errors_of : Result Raised (List Error × Option Task) → List Error
errors_of (ok r) = r.0
errors_of (err e) = []

abbrev active_in : Result Raised (List Error × Option Task) → Option Task
active_in (ok r) = r.1
active_in (err e) = none

task_report-Clean :
    (repr : Json → String) (config found : List Error) (s : Seen) (ledger : Option String)
    {active : Option Task}
    → task_report repr config (found, s) ledger ≡ ok ([], active)
    → Clean repr found s ledger active
unfolding task_report
task_report-Clean repr config found s ledger {active} h =
    let (between, b, made) = >>=-eq-ok (dependency_errors s.by_id s) _ h in
    let limit = limit_errors s.active in
    let last = ledger_errors repr ledger s in
    let none_at_all : no_errors (config ++ found ++ limit ++ between ++ last) ≡ true =
      ap (λ r. no_errors (errors_of r)) made in
    let (h2, a4) =
      and-true _ _
        (sym (no_errors-append (config ++ found ++ limit ++ between) last) ∙ none_at_all) in
    let (h1, a3) = and-true _ _ (sym (no_errors-append (config ++ found ++ limit) between) ∙ h2) in
    let (h0, a2) = and-true _ _ (sym (no_errors-append (config ++ found) limit) ∙ h1) in
    let (a0, a1) = and-true _ _ (sym (no_errors-append config found) ∙ h0) in
    record {
      found_none = a1;
      few =
          sym (no_errors-need (leb (length s.active) 1) (many_in_progress (length s.active))) ∙ a2;
      between = between;
      between_made = b;
      between_none = a3;
      ledger_none = a4;
      the_active =
          sym (ap active_in made) ∙ ap (λ c. if c then sole s.active else none) none_at_all;
    }

checked-some :
    (repr : Json → String) (config : List Error) (read : Option (List Json))
    (ledger : Option String) {active : Option Task}
    → checked repr config read ledger ≡ ok ([], active)
    → (tasks : List Json) × (read ≡ some tasks)
      × (task_report repr config (scan tasks unseen) ledger ≡ ok ([], active))
unfolding checked
checked-some repr config none ledger h =
    let stopped : no_errors (config ++ tasks_array ∷ []) ≡ true =
      ap (λ r. no_errors (errors_of r)) h in
    cc (
      (and-true (no_errors config) false
        (sym (no_errors-append config (tasks_array ∷ [])) ∙ stopped)).1)
checked-some repr config (some tasks) ledger h = (tasks, refl, h)

pub nothing_in :
    {V : Type 0} (ids : List String) (k : String)
    → member k ids ≡ false
    → lookup {V = V} k [] ≡ none
unfolding lookup
nothing_in ids k new = refl

sound-parts :
    (tasks : List Fields)
    → distinct (map id_of tasks) ≡ true
    → all is_fine tasks ≡ true
    → leb (length (active_of tasks)) 1 ≡ true
    → all (dependencies_fine tasks) tasks ≡ true
    → sound tasks ≡ true
unfolding sound
sound-parts tasks a b c d = rw (a, b, c, d) refl

-- When `validate_models` reports no error, the state holds a list of tables, which are sound tasks:
-- their ids are distinct, each is fine on its own, at most one is in progress, and each depends on
-- other tasks of the state, which are done where it is executable; the ledger has a line for each,
-- and the active task is the one in progress.
pub validate_models-sound :
    (repr : Json → String) (config state : Fields) (ledger : Option String) (active : Option Task)
    → validate_models repr config state ledger ≡ ok ([], active)
    → (tasks : List Fields) × (tasks_of state ≡ some (map obj tasks))
      × (sound tasks ≡ true)
      × (listed_in repr ledger tasks ≡ true)
      × (active ≡ sole (active_of tasks))
unfolding validate_models
validate_models-sound repr config state ledger active h =
    let (read, present, reported) =
      checked-some repr (config_errors config state) (tasks_of state) ledger h in
    let s = (scan read unseen).1 in
    let c =
      task_report-Clean repr (config_errors config state) (scan read unseen).0 s ledger reported in
    let r = scan-Scanned read unseen (nothing_in []) (nothing_in []) c.found_none in
    let tasks = r.tables in
    let own = rows-Owns dependencies_of tasks r.separate in
    let dependencies =
      relations-fine tasks tasks s r.by_id
        (subst (λ m. All (Owns dependencies_of m) tasks) (sym r.dependencies) own)
        (subst (λ m. dependency_errors m s ≡ ok c.between) r.by_id c.between_made) c.between_none in
    (
      tasks,
      present ∙ ap some r.made,
      sound-parts tasks r.separate r.fine (subst (λ l. leb (length l) 1 ≡ true) r.active c.few)
          dependencies,
      ledger-listed repr ledger tasks s r.by_id r.separate (λ p h. (r.listed p h).1) c.ledger_none,
      c.the_active ∙ ap sole r.active,
    )
