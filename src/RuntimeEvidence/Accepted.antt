-- ===== src/RuntimeEvidence/Accepted.antt =====
-- scripts/runtime_evidence.py: the evidence that `validate_evidence` accepts where a pass is required.
use yocto_qemu_edu_lab.Common.{
  ℕ, String, ◌≡◌, sym, ap, ◌∙◌, Bool, true, false, not, Option, some, List, leb, ◌==◌, ok,
  >>=-eq-ok, ensure-true, in_turn, in_turn-ok,
}
use yocto_qemu_edu_lab.Json.{pos, bool, int, str, arr, obj, Items, Fields, get, items}
use yocto_qemu_edu_lab.RuntimeEvidence.Suite.{supported_tests}
use yocto_qemu_edu_lab.RuntimeEvidence.Values.{
  require_exact_keys, integer_at, text_is, other_schema, result_differs, not_passed, not_clean,
}
use yocto_qemu_edu_lab.RuntimeEvidence.Validate.{
  evidence_keys, tests_of, validate_contract, validate_project, validate_inputs, validate_build,
  validate_tests,
}
use yocto_qemu_edu_lab.RuntimeEvidence.Judge.{
  validate_negative_paths, validate_interrupt_paths, validate_dma_paths, when, validate_summary,
  result_of, pass_checks, validate_evidence,
}
use yocto_qemu_edu_lab.RuntimeEvidence.Reads.{
  not-true, integer_at-get, text_is-get, str-inj, some-inj,
}
use yocto_qemu_edu_lab.RuntimeEvidence.Passed.{count-all, Recorded, test_statuses-Recorded}
use yocto_qemu_edu_lab.RuntimeEvidence.Parts.{
  IsRevision, result_of-passed, tests_of-some, validate_build-exit, validate_project-dirty,
  validate_tests-arr,
}

-- What is recorded of a pass: the tests of a supported suite, each as passed, an exit code of 0, a
-- clean tree and the revision, where one is expected.
pub record Passes (evidence : Fields) (expected_revision : Option String) : Type 0 where
  version : ℕ
  tests : List String
  values : Items
  build : Fields
  project : Fields
  versioned : get "schema_version" evidence ≡ some (int (pos version))
  suite : supported_tests version ≡ some tests
  tests_at : get "tests" evidence ≡ some (arr values)
  passed : Recorded (λ s. s ≡ "PASSED") tests (items values)
  build_at : get "build" evidence ≡ some (obj build)
  exited : get "testimage_exit_code" build ≡ some (int (pos 0))
  project_at : get "project" evidence ≡ some (obj project)
  clean : get "dirty" project ≡ some (bool false)
  revision_at : IsRevision expected_revision project

-- the checks of a pass
pass_checks-passed :
    (evidence : Fields) (dirty : Bool) (negative : Fields × Fields) (interrupts dma : Option Fields)
    {done : Unit {0}}
    → in_turn (pass_checks evidence dirty negative interrupts dma) ≡ ok done
    → (get "result" evidence ≡ some (str "passed")) × (dirty ≡ false)
pass_checks-passed evidence dirty (timeout, absence) interrupts dma h =
    let (passed, (clean, others)) =
      in_turn-ok (pass_checks evidence dirty (timeout, absence) interrupts dma) h in
    (
      text_is-get "result" "passed" not_passed evidence passed,
      not-true dirty (ensure-true (not dirty) not_clean clean),
    )

module _ (is_finite_positive : String → Bool) where
  -- Evidence that is accepted where a pass is required records a pass: a supported suite, each of
  -- its tests in its order and passed, an exit code of 0, a clean tree and the expected revision.
  pub validate_evidence-Passes :
      (evidence : Fields) (expected_revision : Option String)
      → validate_evidence is_finite_positive evidence true expected_revision ≡ ok tt
      → Passes evidence expected_revision
  unfolding validate_evidence
  validate_evidence-Passes evidence expected h =
      let (_, _, h1) = >>=-eq-ok (require_exact_keys evidence evidence_keys) _ h in
      let (version, versioned, h2) = >>=-eq-ok (integer_at "schema_version" evidence) _ h1 in
      let (tests, suite, h3) = >>=-eq-ok (tests_of version) _ h2 in
      let (_, _, h4) = >>=-eq-ok (text_is "kind" "qemu-edu-runtime" other_schema evidence) _ h3 in
      let (contract, _, h5) = >>=-eq-ok (validate_contract version evidence) _ h4 in
      let (dirty, ours, h6) = >>=-eq-ok (validate_project expected evidence) _ h5 in
      let (_, _, h7) = >>=-eq-ok (validate_inputs evidence) _ h6 in
      let (exit_code, built, h8) = >>=-eq-ok (validate_build evidence) _ h7 in
      let (statuses, tested, h9) =
        >>=-eq-ok (validate_tests is_finite_positive tests evidence) _ h8 in
      let (negative, _, h10) =
        >>=-eq-ok (validate_negative_paths version tests statuses contract) _ h9 in
      let (interrupts, _, h11) =
        >>=-eq-ok (when (leb 2 version) (validate_interrupt_paths tests statuses contract)) _ h10 in
      let (dma, _, h12) =
        >>=-eq-ok (when (version == 3) (validate_dma_paths tests statuses contract)) _ h11 in
      let (_, _, h13) = >>=-eq-ok (validate_summary statuses evidence) _ h12 in
      let (_, judged, h14) =
        >>=-eq-ok (text_is "result" (result_of statuses exit_code) result_differs evidence) _ h13 in
      let (won, clean) = pass_checks-passed evidence dirty negative interrupts dma h14 in
      let (counted, exited) = result_of-passed statuses exit_code (
        str-inj (
          some-inj (
            sym (text_is-get "result" (result_of statuses exit_code) result_differs evidence judged)
            ∙ won))) in
      let (values, there, many, run) =
        validate_tests-arr is_finite_positive tests evidence tested in
      let (build, build_at, exit) = validate_build-exit evidence built in
      let (project, project_at, read, revised) = validate_project-dirty expected evidence ours in
      record {
        version = version;
        tests = tests;
        values = values;
        build = build;
        project = project;
        versioned = integer_at-get "schema_version" evidence versioned;
        suite = tests_of-some version suite;
        tests_at = there;
        passed =
            test_statuses-Recorded is_finite_positive (λ s. s ≡ "PASSED") tests (items values) many
              run (count-all "PASSED" statuses counted);
        build_at = build_at;
        exited = exit ∙ ap (λ n. some (int (pos n))) exited;
        project_at = project_at;
        clean = read ∙ ap (λ b. some (bool b)) clean;
        revision_at = revised;
      }
