-- ===== src/Diagnostics/Exit.antt =====
-- What an exit status of 0 of a command of scripts/diagnostics.py promises.
use yocto_qemu_edu_lab.Common.{
  String, ◌≡◌, refl, ap, subst, ◌∙◌, Bool, true, false, ◌||◌, not, List, [], ◌∷◌, map, All, all,
  Option, none, some, arith, ok, and-true, or-true, Bool-cases, inl, inr, if◌then◌else◌,
}
use yocto_qemu_edu_lab.Diagnostics.Checks.{
  CheckId, same_id, checks, Status, pass, is_pass, Check, check, aggregate, Command, status, doctor,
  inspect, evidence, sequences,
}
use yocto_qemu_edu_lab.Diagnostics.Environment.{Environment}
use yocto_qemu_edu_lab.Diagnostics.Context.{Context, Statuses, set_status}
use yocto_qemu_edu_lab.Diagnostics.Transitions.{statuses_from, statuses_of, is_present}
use yocto_qemu_edu_lab.Diagnostics.Commands.{command_checks}
use yocto_qemu_edu_lab.Diagnostics.Steps.Held.{backed, is_some}
use yocto_qemu_edu_lab.Diagnostics.Steps.Order.{rank-injective}
use yocto_qemu_edu_lab.Diagnostics.Consistent.{run-Follows, command_checks-inv, fresh-statuses}
use yocto_qemu_edu_lab.Diagnostics.Selected.{IsSelected, run-IsSelected}
use yocto_qemu_edu_lab.Diagnostics.Aggregate.{acceptable, aggregate-zero}

-- The checks that a warning may come from, and the optional ones.
abbrev pub strict : CheckId → Bool
strict i = not (
    same_id i CheckId.repository_clean
    || same_id i CheckId.evidence_subject
    || same_id i CheckId.evidence_inputs)

-- a required check that never warns has passed, where it was made
abbrev settled : CheckId → Option Status → Bool
settled i none = true
settled i (some s) = if strict i then is_pass s else true

strict-required : (i : CheckId) → strict i ≡ true → (checks i).required ≡ true
unfolding checks
strict-required i h = ground arith

made-settled :
    (k : Check)
    → check k.id k.status ≡ ok k
    → acceptable k ≡ true
    → settled k.id (some k.status) ≡ true
unfolding check
made-settled k made h = ground (arith, strict-required k.id)

abbrev present : CheckId → List CheckId → Bool
present j [] = false
present j (i ∷ is) = same_id i j || present j is

settled-set :
    (m : Statuses) (k : Check)
    → ((j : CheckId) → settled j (m j) ≡ true)
    → settled k.id (some k.status) ≡ true
    → (j : CheckId) → settled j (set_status m k.id k.status j) ≡ true
settled-set m k before here j = elim (Bool-cases (same_id k.id j)) [
  | inl same ↦
      rw same (subst (λ i. settled i (some k.status) ≡ true) (rank-injective k.id j same) here)
  | inr other ↦ rw other (before j)
]

settled-statuses :
    (m : Statuses) (ks : List Check)
    → ((j : CheckId) → settled j (m j) ≡ true)
    → All (λ k. check k.id k.status ≡ ok k) ks
    → all acceptable ks ≡ true
    → (j : CheckId) → settled j (statuses_from m ks j) ≡ true
settled-statuses m [] before made h = before
settled-statuses m (k ∷ ks) before (here, later) h =
    let (first, rest) = and-true (acceptable k) _ h in
    settled-statuses (set_status m k.id k.status) ks
      (settled-set m k before (made-settled k here first)) later rest

present-kept :
    (m : Statuses) (ks : List Check) (j : CheckId)
    → is_present (m j) ≡ true
    → is_present (statuses_from m ks j) ≡ true
present-kept m [] j h = h
present-kept m (k ∷ ks) j h = present-kept (set_status m k.id k.status) ks j (ground arith)

present-statuses :
    (m : Statuses) (ks : List Check) (j : CheckId)
    → present j (map (λ k. k.id) ks) ≡ true
    → is_present (statuses_from m ks j) ≡ true
present-statuses m [] j h = cc
present-statuses m (k ∷ ks) j h =
    elim (or-true (same_id k.id j) (present j (map (λ x. x.id) ks)) h) [
      | inl here ↦ present-kept (set_status m k.id k.status) ks j (rw here refl)
      | inr later ↦ present-statuses (set_status m k.id k.status) ks j later
    ]

passed :
    (i : CheckId) (o : Option Status)
    → strict i ≡ true
    → settled i o ≡ true
    → is_present o ≡ true
    → o ≡ some pass
passed i o st h p = ground arith

-- A command whose exit status is 0 has passed every check of its sequence but the three that may
-- warn.
pub exit_zero-passed :
    (e : Environment) (command : Command) (lab_id : Option String) (ks : List Check) (d : Context)
    (j : CheckId)
    → command_checks e command lab_id ≡ ok (ks, d)
    → (aggregate ks).1 ≡ 0
    → present j (sequences command) ≡ true
    → strict j ≡ true
    → d.statuses j ≡ some pass
exit_zero-passed e command lab_id ks d j h zero_exit at st =
    let (c, start, run) = command_checks-inv e command lab_id h in
    let f = run-Follows e command lab_id start run in
    let accepted = (aggregate-zero ks).0 zero_exit in
    let final : d.statuses ≡ statuses_of ks =
      f.statuses ∙ ap (λ m. statuses_from m ks) (fresh-statuses lab_id start) in
    ap (λ (m : Statuses). m j) final
    ∙ passed j (statuses_of ks j) st (settled-statuses (λ i. none) ks (λ i. refl) f.made accepted j)
        (present-statuses (λ i. none) ks j (rw f.ids at))

in_every :
    (command : Command)
    → (present CheckId.project_version (sequences command) ≡ true)
      × (present CheckId.repository_git (sequences command) ≡ true)
      × (present CheckId.source_lock (sequences command) ≡ true)
      × (present CheckId.lab_selection (sequences command) ≡ true)
in_every status = (refl, refl, refl, refl)
in_every doctor = (refl, refl, refl, refl)
in_every inspect = (refl, refl, refl, refl)
in_every evidence = (refl, refl, refl, refl)

backed-some : {o : Option Status} {b : Bool} → o ≡ some pass → backed o b ≡ true → b ≡ true
backed-some e h = ground arith

-- A command whose exit status is 0 ends with a version and a revision of the project; with the lock
-- that the file of the lock parses to; and with the manifest that the catalog, read with that lock,
-- has for the lab that is asked for, or for the default lab of the index where none is.
pub exit_zero-data :
    (e : Environment) (command : Command) (lab_id : Option String) (ks : List Check) (d : Context)
    → command_checks e command lab_id ≡ ok (ks, d)
    → (aggregate ks).1 ≡ 0
    → (is_some d.version ≡ true) × (is_some d.revision ≡ true) × IsSelected e lab_id d
exit_zero-data e command lab_id ks d h z =
    let (c, start, run) = command_checks-inv e command lab_id h in
    let b = (run-Follows e command lab_id start run).backed in
    let at = λ (j : CheckId). exit_zero-passed e command lab_id ks d j h z in
    (
      backed-some (at CheckId.project_version (in_every command).0 refl) b.version,
      backed-some (at CheckId.repository_git (in_every command).1 refl) b.revision,
      run-IsSelected e command lab_id start run
          (backed-some (at CheckId.source_lock (in_every command).2 refl) b.lock)
          (backed-some (at CheckId.lab_selection (in_every command).3 refl) b.manifest),
    )
