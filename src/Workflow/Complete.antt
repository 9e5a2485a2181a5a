-- ===== src/Workflow/Complete.antt =====
-- scripts/validate_workflow.py: `validate_models` on a sound task state.
use yocto_qemu_edu_lab.Common.{
  String, ◌≡◌, refl, sym, ap, subst, ◌∙◌, Bool, true, Option, none, some, List, [], ◌∷◌, ◌++◌, map,
  codes, all, All, and-true, arith, leb, length, ok, ◌>>=◌,
}
use yocto_qemu_edu_lab.Json.{Json, obj, Fields}
use yocto_qemu_edu_lab.Workflow.Policy.{Error, distinct, many_in_progress, ledger_missing}
use yocto_qemu_edu_lab.Workflow.Tasks.{
  config_errors, id_of, dependencies_of, Task, Seen, unseen, see, scan,
}
use yocto_qemu_edu_lab.Workflow.Models.{
  no_errors, dependency_errors, sole, limit_errors, ledger_errors, task_report, tasks_of,
  validate_models, checked, report, row_of, at_line_start, in_ledger,
}
use yocto_qemu_edu_lab.Workflow.Spec.{active_of, is_fine, sound, has_line, listed_in}
use yocto_qemu_edu_lab.Workflow.Scan.{
  no_errors-need, no_errors-need_each, rows, dependency_rows, scan-Scanned, fresh,
}
use yocto_qemu_edu_lab.Workflow.Sound.{nothing_in}
use yocto_qemu_edu_lab.Workflow.Related.{Owns, rows-Owns}
use yocto_qemu_edu_lab.Workflow.Fine.{append-none, scan-none, relations-none}

see-all :
    (p : String → Bool) (t : Fields) (s : Seen)
    → all p s.ids ≡ true
    → p (id_of t) ≡ true
    → all p (see t s).ids ≡ true
see-all p t s old here = ground arith

scan-ids :
    (p : String → Bool) (tasks : List Fields) (s : Seen)
    → all p s.ids ≡ true
    → all p (map id_of tasks) ≡ true
    → all p (scan (map obj tasks) s).1.ids ≡ true
unfolding scan
scan-ids p [] s old h = old
scan-ids p (t ∷ ts) s old h =
    let (here, later) = and-true _ _ h in scan-ids p ts (see t s) (see-all p t s old here) later

tables_in : List Json → List Fields
tables_in [] = []
tables_in (obj t ∷ js) = t ∷ tables_in js
tables_in (_ ∷ js) = tables_in js

tables_in-map : (tasks : List Fields) → tables_in (map obj tasks) ≡ tasks
unfolding tables_in
tables_in-map [] = refl
tables_in-map (t ∷ ts) = ap (λ rest. t ∷ rest) (tables_in-map ts)

all-in_ledger :
    (repr : Json → String) (ledger : String) (table : List (String × Fields)) (tasks : List Fields)
    → All (Owns (λ t. t) table) tasks
    → all (has_line repr ledger) tasks ≡ true
    → all (in_ledger repr ledger table) (map id_of tasks) ≡ true
all-in_ledger repr ledger table [] o h = refl
all-in_ledger repr ledger table (t ∷ ts) (o, os) h =
    let (here, there) = and-true _ _ h in
    let line : in_ledger repr ledger table (id_of t) ≡ true =
      subst
        (λ found.
          (elim found [
            | none ↦ true
            | some task ↦ at_line_start (codes (row_of repr (id_of t) task)) (codes ledger)
          ])
          ≡ true)
        (sym o) here in
    rw (line, all-in_ledger repr ledger table ts os there) refl

ledger-none :
    (repr : Json → String) (ledger : Option String) (tasks : List Fields)
    → distinct (map id_of tasks) ≡ true
    → listed_in repr ledger tasks ≡ true
    → (scan (map obj tasks) unseen).1.by_id ≡ rows tasks
    → no_errors (ledger_errors repr ledger (scan (map obj tasks) unseen).1) ≡ true
ledger-none repr none tasks d l t = refl
ledger-none repr (some ledger) tasks d l t =
    let s = (scan (map obj tasks) unseen).1 in
    let test = in_ledger repr ledger s.by_id in
    let each = all-in_ledger repr ledger (rows tasks) tasks (rows-Owns (λ t. t) tasks d) l in
    no_errors-need_each test ledger_missing s.ids
    ∙ scan-ids test tasks unseen refl
        (subst (λ m. all (in_ledger repr ledger m) (map id_of tasks) ≡ true) (sym t) each)

record Tables (tasks : List Fields) : Type 0 where
  pub found : no_errors (scan (map obj tasks) unseen).0 ≡ true
  pub by_id : (scan (map obj tasks) unseen).1.by_id ≡ rows tasks
  pub dependencies : (scan (map obj tasks) unseen).1.dependencies ≡ dependency_rows tasks
  pub active : (scan (map obj tasks) unseen).1.active ≡ active_of tasks

all-fresh : (tasks : List Fields) → all (fresh []) tasks ≡ true
all-fresh [] = refl
all-fresh (t ∷ ts) = all-fresh ts

scan-Tables :
    (tasks : List Fields)
    → all is_fine tasks ≡ true
    → distinct (map id_of tasks) ≡ true
    → Tables tasks
scan-Tables tasks fine apart =
    let clean = scan-none tasks unseen fine (all-fresh tasks) apart in
    let r = scan-Scanned (map obj tasks) unseen (nothing_in []) (nothing_in []) clean in
    let same : r.tables ≡ tasks =
      sym (tables_in-map r.tables) ∙ ap tables_in (sym r.made) ∙ tables_in-map tasks in
    record {
      found = clean;
      by_id = r.by_id ∙ ap rows same;
      dependencies = r.dependencies ∙ ap dependency_rows same;
      active = r.active ∙ ap active_of same;
    }

report-none :
    (es : List Error) (active : List Task)
    → no_errors es ≡ true
    → report es active ≡ ([], sole active)
report-none [] active h = refl
report-none (e ∷ es) active h = cc

task_report-none :
    (repr : Json → String) (tasks : List Fields) (ledger : Option String)
    → sound tasks ≡ true
    → listed_in repr ledger tasks ≡ true
    → task_report repr [] (scan (map obj tasks) unseen) ledger ≡ ok ([], sole (active_of tasks))
unfolding task_report sound
task_report-none repr tasks ledger h l =
    let (h1, related) = and-true _ _ h in
    let (h2, few) = and-true _ _ h1 in
    let (apart, fine) = and-true _ _ h2 in
    let t = scan-Tables tasks fine apart in
    let s = (scan (map obj tasks) unseen).1 in
    let found = (scan (map obj tasks) unseen).0 in
    let own =
      subst (λ m. All (Owns dependencies_of m) tasks) (sym t.dependencies)
        (rows-Owns dependencies_of tasks apart) in
    let (es, made, clean) = relations-none tasks tasks s t.by_id own fine related in
    let limit : no_errors (limit_errors s.active) ≡ true =
      no_errors-need (leb (length s.active) 1) (many_in_progress (length s.active))
      ∙ ap (λ a. leb (length a) 1) t.active
      ∙ few in
    let total : no_errors (found ++ limit_errors s.active ++ es ++ ledger_errors repr ledger s)
        ≡ true =
      append-none (found ++ limit_errors s.active ++ es) (ledger_errors repr ledger s)
        (append-none (found ++ limit_errors s.active) es
          (append-none found (limit_errors s.active) t.found limit) clean)
        (ledger-none repr ledger tasks apart l t.by_id) in
    ap
      (λ r. r >>= λ b. ok (
        report ([] ++ found ++ limit_errors s.active ++ b ++ ledger_errors repr ledger s) s.active))
      (ap (λ m. dependency_errors m s) t.by_id ∙ made)
    ∙ ap ok (report-none _ s.active total)
    ∙ ap (λ a. ok ([], sole a)) t.active

-- When the configuration has no error, the state holds sound tasks and the ledger has a line for
-- each, `validate_models` reports no error, and the active task is the one in progress.
pub validate_models_complete :
    (repr : Json → String) (config state : Fields) (ledger : Option String) (tasks : List Fields)
    → config_errors config state ≡ []
    → tasks_of state ≡ some (map obj tasks)
    → sound tasks ≡ true
    → listed_in repr ledger tasks ≡ true
    → validate_models repr config state ledger ≡ ok ([], sole (active_of tasks))
unfolding validate_models checked
validate_models_complete repr config state ledger tasks c p h l =
    ap (λ r. checked repr r (tasks_of state) ledger) c
    ∙ ap (λ r. checked repr [] r ledger) p
    ∙ task_report-none repr tasks ledger h l
