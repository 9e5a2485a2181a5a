-- ===== src/RuntimeEvidence/Latest.antt =====
-- scripts/runtime_evidence.py: the run that `select_oeqa_result` selects.
use yocto_qemu_edu_lab.Common.{
  String, ◌≡◌, refl, sym, ap, subst, ◌∙◌, ◌⊎◌, inl, inr, true, Option, none, some, List, [], ◌∷◌,
  ok, >>=-eq-ok, result_or,
}
use yocto_qemu_edu_lab.Json.{Json, Fields, end, field}
use yocto_qemu_edu_lab.RuntimeEvidence.Select.{
  Run, run_of, with_run, candidates, run_le, latest, latest_of, select_oeqa_result,
}
use yocto_qemu_edu_lab.RuntimeEvidence.Reads.{some-inj}
use yocto_qemu_edu_lab.RuntimeEvidence.RunOrder.{IsOne, latest-first, latest-rest, latest-IsOne}
use yocto_qemu_edu_lab.RuntimeEvidence.Among.{IsRun, IsAmong, IsLast, run_of-IsRun, IsRun-run_of}

module _ (machine image : String) (expected_tests : List String) where
  with_run-IsOne :
      (found : Option Run) (runs : List Run) (run : Run)
      → IsOne run (with_run machine image expected_tests found runs)
      → (found ≡ some run) ⊎ IsOne run runs
  with_run-IsOne none runs run h = inr h
  with_run-IsOne (some first) runs run (inl same) = inl (ap some (sym same))
  with_run-IsOne (some first) runs run (inr later) = inr later

  IsOne-with_run :
      (found : Option Run) (runs : List Run) (run : Run)
      → (found ≡ some run) ⊎ IsOne run runs
      → IsOne run (with_run machine image expected_tests found runs)
  IsOne-with_run none runs run (inl same) = absurd cc same
  IsOne-with_run none runs run (inr later) = later
  IsOne-with_run (some first) runs run (inl same) = inl (sym (some-inj same))
  IsOne-with_run (some first) runs run (inr later) = inr later

  first-IsLast :
      (i : String) (v : Json) (run : Run) (found : Option Run)
      → run_of machine image expected_tests i v ≡ ok found
      → ((other : Run) → found ≡ some other → run_le other run ≡ true)
      → (¬ ((other : Run) × IsRun machine image expected_tests i v other))
        ⊎ ((other : Run) × IsRun machine image expected_tests i v other × (run_le other run ≡ true))
  first-IsLast i v run none first later =
      inl (λ (other, is). absurd cc (IsRun-run_of machine image expected_tests i v other is first))
  first-IsLast i v run (some other) first later =
      inr (other, run_of-IsRun machine image expected_tests i v first, later other refl)

  candidates-IsAmong :
      (entries : Fields) {runs : List Run} (run : Run)
      → candidates machine image expected_tests entries ≡ ok runs
      → IsOne run runs
      → IsAmong machine image expected_tests entries run
  candidates-IsAmong end {runs} run h one = subst (IsOne run) (sym (ap (result_or runs) h)) one
  candidates-IsAmong (field i v entries) {runs} run h one =
      let (found, first, h1) = >>=-eq-ok (run_of machine image expected_tests i v) _ h in
      let (rest, later, h2) = >>=-eq-ok (candidates machine image expected_tests entries) _ h1 in
      elim (with_run-IsOne found rest run (subst (IsOne run) (sym (ap (result_or runs) h2)) one)) [
        | inl here ↦ inl (run_of-IsRun machine image expected_tests i v (first ∙ ap ok here))
        | inr there ↦ inr (candidates-IsAmong entries run later there)
      ]

  -- the runs of the entries, none of which comes after
  candidates-IsLast :
      (entries : Fields) {runs : List Run} (run : Run)
      → candidates machine image expected_tests entries ≡ ok runs
      → ((other : Run) → IsOne other runs → run_le other run ≡ true)
      → IsLast machine image expected_tests entries run
  candidates-IsLast end run h later = tt
  candidates-IsLast (field i v entries) {runs} run h later =
      let (found, first, h1) = >>=-eq-ok (run_of machine image expected_tests i v) _ h in
      let (rest, others, h2) = >>=-eq-ok (candidates machine image expected_tests entries) _ h1 in
      let among = λ (other : Run) (one : (found ≡ some other) ⊎ IsOne other rest).
        later other
          (subst (IsOne other) (ap (result_or runs) h2) (IsOne-with_run found rest other one)) in
      (
        first-IsLast i v run found first (λ other here. among other (inl here)),
        candidates-IsLast entries run others (λ other there. among other (inr there)),
      )

latest_of-last :
    (runs : List Run) {run : Run}
    → latest_of runs ≡ ok run
    → IsOne run runs × ((other : Run) → IsOne other runs → run_le other run ≡ true)
latest_of-last [] h = absurd cc h
latest_of-last (first ∷ runs) {run} h =
    let same = ap (result_or run) h in
    (
      subst (λ r. IsOne r (first ∷ runs)) same (latest-IsOne first runs),
      λ other one.
          subst (λ r. run_le other r ≡ true) same
            (elim one [
              | inl equal ↦
                  subst (λ r. run_le r (latest first runs) ≡ true) (sym equal)
                    (latest-first first runs)
              | inr later ↦ latest-rest first runs other later
            ]),
    )

-- The run that is selected is that of an entry that is a run of the suite, on this machine and image,
-- and each entry is no such run, or one that does not come after it, by the time it started at and
-- then by its name.
pub select_oeqa_result-IsAmong :
    (entries : Fields) (machine image : String) (expected_tests : List String) (run : Run)
    → select_oeqa_result entries machine image expected_tests ≡ ok run
    → IsAmong machine image expected_tests entries run
      × IsLast machine image expected_tests entries run
unfolding select_oeqa_result
select_oeqa_result-IsAmong entries machine image expected_tests run h =
    let (runs, all_runs, last) = >>=-eq-ok (candidates machine image expected_tests entries) _ h in
    let (one, later) = latest_of-last runs last in
    (
      candidates-IsAmong machine image expected_tests entries run all_runs one,
      candidates-IsLast machine image expected_tests entries run all_runs later,
    )
