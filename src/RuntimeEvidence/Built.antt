-- ===== src/RuntimeEvidence/Built.antt =====
-- scripts/runtime_evidence.py: the evidence that `build_evidence` builds.
use yocto_qemu_edu_lab.Common.{
  ℕ, String, ◌≡◌, refl, sym, ap, subst, ◌∙◌, inl, inr, Bool, false, none, some, List, [], ◌∷◌, All,
  member, ok, ◌>>=◌, >>=-eq-ok, ensure, result_or, Option-cases, strip,
}
use yocto_qemu_edu_lab.Json.{ℤ, pos, Json, int, str, obj, Fields, get}
use yocto_qemu_edu_lab.Regex.{fullmatch}
use yocto_qemu_edu_lab.RuntimeEvidence.Suite.{expected_tests, oeqa_statuses, sha256_pattern}
use yocto_qemu_edu_lab.RuntimeEvidence.Values.{bad_digest, bad_status, duration_check}
use yocto_qemu_edu_lab.RuntimeEvidence.Validate.{exit_code_of}
use yocto_qemu_edu_lab.RuntimeEvidence.Judge.{result_of, validate_evidence}
use yocto_qemu_edu_lab.RuntimeEvidence.Select.{
  Run, object_or_none, required_string, select_oeqa_result,
}
use yocto_qemu_edu_lab.RuntimeEvidence.Build.{
  Repository, Report, report_of, duration_of, statuses_of, report_test, report_tests, git_state,
  release_of, strings_of, evidence_of, contract_value, project_value, inputs_value, build_value,
  evidence_value, build_evidence,
}
use yocto_qemu_edu_lab.RuntimeEvidence.Reads.{str-inj, some-inj}
use yocto_qemu_edu_lab.RuntimeEvidence.Passed.{count-all}
use yocto_qemu_edu_lab.RuntimeEvidence.Parts.{result_of-passed, exit_code_of-int}
use yocto_qemu_edu_lab.RuntimeEvidence.Among.{required_string-get, object_or_none-obj}

-- the tests as the results of OEQA report them, each with a status
abbrev pub IsReported : (String → Type 0) → List String → Fields → Type 0
IsReported P [] results = Unit
IsReported P (test ∷ tests) results =
    ((report : Fields) × (status : String) × (get test results ≡ some (obj report))
      × (get "status" report ≡ some (str status))
      × P status)
    × IsReported P tests results

report_of-get :
    (test : String) (results : Fields) {report : Fields}
    → report_of test results ≡ ok report
    → get test results ≡ some (obj report)
report_of-get test results {report = wanted} h =
    elim (Option-cases (object_or_none (get test results))) [
      | inl absent ↦ absurd cc (rw (absent, report_of) at h)
      | inr (report, there) ↦
          object_or_none-obj (get test results) there
          ∙ ap (λ r. some (obj r)) (ap (result_or wanted) (rw (there, report_of) at h))
    ]

int-inj : {m n : ℤ} → int m ≡ int n → m ≡ n
int-inj h = cc

module _ (is_finite_positive : String → Bool) (rounded : Json → Json) where
  report_tests-IsReported :
      (P : String → Type 0) (tests : List String) (results : Fields) {reports : List Report}
      → report_tests is_finite_positive rounded tests results ≡ ok reports
      → All P (statuses_of reports)
      → IsReported P tests results
  report_tests-IsReported P [] results h all = tt
  report_tests-IsReported P (test ∷ tests) results {reports} h all =
      let (first, one, h1) = >>=-eq-ok (report_test is_finite_positive rounded test results) _ h in
      let (rest, later, h2) =
        >>=-eq-ok (report_tests is_finite_positive rounded tests results) _ h1 in
      let (report, found, h3) = >>=-eq-ok (report_of test results) _ one in
      let (status, read, h4) = >>=-eq-ok (required_string "status" report) _ h3 in
      let (_, _, h5) = >>=-eq-ok (ensure (member status oeqa_statuses) bad_status) _ h4 in
      let (_, _, h6) = >>=-eq-ok (duration_check is_finite_positive (duration_of report)) _ h5 in
      let (mine, others) =
        subst (λ r. All P (statuses_of r))
          (ap (result_or reports) (sym h2) ∙ ap (λ r. r ∷ rest) (ap (result_or first) (sym h6)))
          all in
      (
        (
          report,
          status,
          report_of-get test results found,
          required_string-get "status" report read,
          mine,
        ),
        report_tests-IsReported P tests results later others,
      )

  -- a value that is validated and then returned
  validated_once :
      (built : Fields) (result : Json) {evidence : Fields}
      → get "result" built ≡ some result
      → (validate_evidence is_finite_positive built false none >>= λ valid. ok built) ≡ ok evidence
      → (validate_evidence is_finite_positive evidence false none ≡ ok tt)
        × (get "result" evidence ≡ some result)
  validated_once built result {evidence} there h =
      let (_, valid, same) =
        >>=-eq-ok (validate_evidence is_finite_positive built false none) _ h in
      let equal = ap (result_or evidence) same in
      (
        subst (λ e. validate_evidence is_finite_positive e false none ≡ ok tt) equal valid,
        subst (λ e. get "result" e ≡ some result) equal there,
      )

  evidence_value-result :
      (contract project inputs build : Fields) (exit_code : ℕ) (reports : List Report)
      → get "result" (
          evidence_value is_finite_positive rounded contract project inputs build exit_code reports)
        ≡ some (str (result_of (statuses_of reports) exit_code))
  unfolding get
  evidence_value-result contract project inputs build exit_code reports = refl

  evidence_of-validated :
      (repo : Repository) (machine image oeqa_sha256 : String) (run : Run) (exit_code : ℕ)
      (reports : List Report) {evidence : Fields}
      → evidence_of is_finite_positive rounded repo machine image oeqa_sha256 run exit_code reports
        ≡ ok evidence
      → (validate_evidence is_finite_positive evidence false none ≡ ok tt)
        × (get "result" evidence ≡ some (str (result_of (statuses_of reports) exit_code)))
  unfolding evidence_of
  evidence_of-validated repo machine image oeqa_sha256 run exit_code reports {evidence} h =
      let ((revision, dirty), _, h5) = >>=-eq-ok (git_state repo) _ h in
      let (lock, _, h6) = >>=-eq-ok (repo.lock) _ h5 in
      let (release, _, h7) = >>=-eq-ok (release_of (object_or_none (get "release" lock))) _ h6 in
      let (digest, _, h8) = >>=-eq-ok (repo.lock_digest) _ h7 in
      let (version, _, h9) = >>=-eq-ok (repo.version_text) _ h8 in
      let (strings, _, h10) = >>=-eq-ok (strings_of (run.configuration) release) _ h9 in
      validated_once
        (evidence_value is_finite_positive rounded (contract_value strings (statuses_of reports))
          (project_value (strip version) revision dirty) (inputs_value digest oeqa_sha256 strings)
          (build_value machine image strings (run.result_id) exit_code) exit_code reports)
        (str (result_of (statuses_of reports) exit_code))
        (evidence_value-result (contract_value strings (statuses_of reports))
          (project_value (strip version) revision dirty) (inputs_value digest oeqa_sha256 strings)
          (build_value machine image strings (run.result_id) exit_code) exit_code reports)
        h10

  -- Evidence that is built and has the result "passed" is accepted by `validate_evidence`, the run
  -- that is selected reports each test of the suite as passed, and the exit code is 0.
  pub build_evidence-IsReported :
      (oeqa : Fields) (repo : Repository) (machine image oeqa_sha256 : String)
      (testimage_exit_code : ℤ) (evidence : Fields)
      → build_evidence is_finite_positive rounded oeqa repo machine image oeqa_sha256
          testimage_exit_code
        ≡ ok evidence
      → get "result" evidence ≡ some (str "passed")
      → (validate_evidence is_finite_positive evidence false none ≡ ok tt)
        × (testimage_exit_code ≡ pos 0)
        × ((run : Run) × (select_oeqa_result oeqa machine image expected_tests ≡ ok run)
            × IsReported (λ s. s ≡ "PASSED") expected_tests (run.results))
  unfolding build_evidence
  build_evidence-IsReported oeqa repo machine image oeqa_sha256 testimage_exit_code evidence h
        passed =
      let (run, selected, h1) =
        >>=-eq-ok (select_oeqa_result oeqa machine image expected_tests) _ h in
      let (_, _, h2) = >>=-eq-ok (ensure (fullmatch sha256_pattern oeqa_sha256) bad_digest) _ h1 in
      let (exit_code, small, h3) = >>=-eq-ok (exit_code_of (int testimage_exit_code)) _ h2 in
      let (reports, reported, h4) =
        >>=-eq-ok (report_tests is_finite_positive rounded expected_tests (run.results)) _ h3 in
      let (valid, result) =
        evidence_of-validated repo machine image oeqa_sha256 run exit_code reports h4 in
      let (counted, exited) =
        result_of-passed (statuses_of reports) exit_code
          (str-inj (some-inj (sym result ∙ passed))) in
      (
        valid,
        int-inj (exit_code_of-int (int testimage_exit_code) small ∙ ap (λ n. int (pos n)) exited),
        (
          run,
          selected,
          report_tests-IsReported (λ s. s ≡ "PASSED") expected_tests (run.results) reported
              (count-all "PASSED" (statuses_of reports) counted),
        ),
      )
