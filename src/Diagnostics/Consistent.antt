-- ===== src/Diagnostics/Consistent.antt =====
-- The statuses and the data of scripts/diagnostics.py `command_document`.
use yocto_qemu_edu_lab.Common.{
  String, ◌≡◌, refl, ap, ◌∙◌, subst, Bool, true, false, ◌&&◌, List, [], ◌∷◌, all, all-intro, Option,
  none, arith, ok, err, Result, >>=-eq-ok, if◌then◌else◌,
}
use yocto_qemu_edu_lab.Diagnostics.Checks.{CheckId, Check, Command, sequences, Raised, wrong_order}
use yocto_qemu_edu_lab.Diagnostics.Environment.{Environment}
use yocto_qemu_edu_lab.Diagnostics.Context.{Context, init}
use yocto_qemu_edu_lab.Diagnostics.Transitions.{
  validate_state_transitions, dependency_holds, derived_holds, all_ids, statuses_of, statuses_from,
  git_holds,
}
use yocto_qemu_edu_lab.Diagnostics.Commands.{run_all, steps, same_ids, command_checks}
use yocto_qemu_edu_lab.Diagnostics.Steps.Held.{IsBacked}
use yocto_qemu_edu_lab.Diagnostics.Steps.Order.{Ordered}
use yocto_qemu_edu_lab.Diagnostics.Runs.{Follows, Chain-Follows, command-Chain}

fresh-IsBacked : (lab_id : Option String) {c : Context} → init lab_id ≡ ok c → IsBacked c
unfolding init
fresh-IsBacked lab_id h = ground arith

pub fresh-statuses :
    (lab_id : Option String) {c : Context} → init lab_id ≡ ok c → c.statuses ≡ (λ i. none)
unfolding init
fresh-statuses lab_id h = ground arith

nothing-Ordered : Ordered 0 (λ i. none)
nothing-Ordered = record {
  absent = λ j h. refl;
  dependencies = λ j. refl;
  derived = λ j. refl;
  tool = refl;
  file = refl;
}

pub run-Follows :
    (e : Environment) (command : Command) (lab_id : Option String) {c : Context} {ks : List Check}
    {d : Context}
    → init lab_id ≡ ok c
    → run_all (steps e command) c ≡ ok (ks, d)
    → Follows (sequences command) c ks d
run-Follows e command lab_id {c} {ks} {d} start h =
    Chain-Follows (command-Chain e command) c ks d (fresh-IsBacked lab_id start)
      (rw (fresh-statuses lab_id start) nothing-Ordered) h

same_ids_refl : (is : List CheckId) → same_ids is is ≡ true
same_ids_refl [] = refl
same_ids_refl (i ∷ is) = rw (same_ids_refl is) (ground arith)

-- When every method of a command returns, `command_checks` returns their checks: the test of their
-- order never raises its RuntimeError.
pub command_checks-run_all :
    (e : Environment) (command : Command) (lab_id : Option String) {c : Context}
    (r : List Check × Context)
    → init lab_id ≡ ok c
    → run_all (steps e command) c ≡ ok r
    → command_checks e command lab_id ≡ ok r
unfolding command_checks
command_checks-run_all e command lab_id (ks, d) start h =
    let f = run-Follows e command lab_id start h in
    rw (start, h, f.ids, same_ids_refl (sequences command)) refl

tested-ok :
    {A : Type 0} (b : Bool) (x : A) {y : A}
    → (if b then ok x else err wrong_order) ≡ ok y
    → ◌≡◌ {A = Result Raised A} (ok x) (ok y)
tested-ok true x h = h
tested-ok false x h = cc

pub command_checks-inv :
    (e : Environment) (command : Command) (lab_id : Option String) {ks : List Check} {d : Context}
    → command_checks e command lab_id ≡ ok (ks, d)
    → (c : Context) × (init lab_id ≡ ok c) × (run_all (steps e command) c ≡ ok (ks, d))
unfolding command_checks
command_checks-inv e command lab_id h =
    let (c, start, h') = >>=-eq-ok (init lab_id) _ h in
    let (r, run, h'') = >>=-eq-ok (run_all (steps e command) c) _ h' in
    (c, start, run ∙ tested-ok _ _ h'')

-- Whatever the environment answers, the statuses of the checks of a command pass
-- `validate_state_transitions`.
pub command_checks-transitions :
    (e : Environment) (command : Command) (lab_id : Option String) (ks : List Check) (d : Context)
    → command_checks e command lab_id ≡ ok (ks, d)
    → validate_state_transitions (statuses_of ks) ≡ true
unfolding validate_state_transitions
command_checks-transitions e command lab_id ks d h =
    let (c, start, run) = command_checks-inv e command lab_id h in
    let f = run-Follows e command lab_id start run in
    let made : d.statuses ≡ statuses_of ks =
      f.statuses ∙ ap (λ m. statuses_from m ks) (fresh-statuses lab_id start) in
    subst
      (λ m.
        (all (dependency_holds m) all_ids
          && all (derived_holds m) all_ids
          && git_holds (m CheckId.repository_git) (m CheckId.tool_git))
        ≡ true)
      made
      (rw (all-intro _ all_ids f.ordered.dependencies, all-intro _ all_ids f.ordered.derived)
        f.ordered.tool)
