-- ===== src/RuntimeEvidence/Examples.antt =====
-- scripts/runtime_evidence.py: a result of OEQA with two runs of the suite that passed, and the
-- evidence of the later one.
use yocto_qemu_edu_lab.Common.{
  String, ◌≡◌, refl, Bool, true, false, length, none, some, List, [], ◌∷◌, ok, is_space, lstrip,
  rstrip, strip, text_le,
}
use yocto_qemu_edu_lab.Json.{pos, Json, float, str, obj, Fields, end, field, get}
use yocto_qemu_edu_lab.Regex.{fullmatch}
use yocto_qemu_edu_lab.RepositoryTrust.Arrays.{loosely, equal}
use yocto_qemu_edu_lab.RuntimeEvidence.Suite.{
  expected_tests, supported_tests, count, summary_of, oeqa_statuses,
}
use yocto_qemu_edu_lab.RuntimeEvidence.Values.{
  require_exact_keys, require_string, require_integer, require_boolean, duration_check,
}
use yocto_qemu_edu_lab.RuntimeEvidence.Validate.{
  validate_contract, validate_project, validate_inputs, validate_build, validate_test,
  validate_tests,
}
use yocto_qemu_edu_lab.RuntimeEvidence.Judge.{
  validate_negative_paths, validate_interrupt_paths, validate_dma_paths, validate_summary,
  result_of, validate_evidence,
}
use yocto_qemu_edu_lab.RuntimeEvidence.Select.{Run, run_le, select_oeqa_result}
use yocto_qemu_edu_lab.RuntimeEvidence.Build.{
  Repository, Report, Strings, statuses_of, contract_value, project_value, inputs_value,
  build_value, evidence_value, evidence_of, build_evidence,
}
use yocto_qemu_edu_lab.RuntimeEvidence.Accepted.{Passes, validate_evidence-Passes}
use yocto_qemu_edu_lab.RuntimeEvidence.Among.{IsAmong, IsLast}
use yocto_qemu_edu_lab.RuntimeEvidence.Latest.{select_oeqa_result-IsAmong}
use yocto_qemu_edu_lab.RuntimeEvidence.Built.{IsReported, build_evidence-IsReported}
use yocto_qemu_edu_lab.RuntimeEvidence.Counts.{sum_of_counts, validate_tests-sum_of_counts}

abbrev passing_results : List String → Fields
passing_results [] = end
passing_results (test ∷ tests) =
    field test (obj (field "status" (str "PASSED") (field "duration" (float "0.5") end)))
      (passing_results tests)

abbrev configuration_from : String → Fields
configuration_from started_at = field "MACHINE" (str "qemux86-64") (
    field "IMAGE_BASENAME" (str "edu-image") (
      field "STARTTIME" (str started_at) (
        field "TEST_TYPE" (str "runtime")
          (field "DISTRO" (str "poky") (field "HOST_DISTRO" (str "debian-12") end)))))

abbrev run_entry : String → Json
run_entry started_at = obj (
    field "configuration" (obj (configuration_from started_at))
      (field "result" (obj (passing_results expected_tests)) end))

abbrev two_runs : Fields
two_runs =
    field "runtime_b" (run_entry "20260102000000")
      (field "runtime_a" (run_entry "20260101000000") end)

abbrev run_at : String → String → Run
run_at started_at result_id = record {
  started_at = started_at;
  result_id = result_id;
  configuration = configuration_from started_at;
  results = passing_results expected_tests;
}

abbrev a_commit : String
a_commit = "0123456789abcdef0123456789abcdef01234567"

abbrev a_digest : String
a_digest = "0123456789abcdef0123456789abcdef0123456789abcdef0123456789abcdef"

abbrev clean_repository : Repository
clean_repository = record {
  head = ok "0123456789abcdef0123456789abcdef01234567\n";
  status = ok "";
  lock = ok (
      field "release" (obj (field "version" (str "5.0.9") (field "series" (str "scarthgap") end)))
        end);
  lock_digest = ok a_digest;
  version_text = ok "1.2.0\n";
}

abbrev passing_reports : List String → List Report
passing_reports [] = []
passing_reports (test ∷ tests) = ("PASSED", float "0.5") ∷ passing_reports tests

abbrev any_float : String → Bool
any_float text = true

abbrev as_it_is : Json → Json
as_it_is value = value

abbrev the_strings : Strings
the_strings = record {
  test_type = "runtime";
  yocto_version = "5.0.9";
  yocto_series = "scarthgap";
  distro = "poky";
  host_distro = "debian-12";
  started_at = "20260102000000";
}

abbrev passing_evidence : Fields
passing_evidence =
    evidence_value any_float as_it_is
      (contract_value the_strings (statuses_of (passing_reports expected_tests)))
      (project_value "1.2.0" a_commit false) (inputs_value a_digest a_digest the_strings)
      (build_value "qemux86-64" "edu-image" the_strings "runtime_b" 0) 0
      (passing_reports expected_tests)

two_runs-selected :
    select_oeqa_result two_runs "qemux86-64" "edu-image" expected_tests
    ≡ ok (run_at "20260102000000" "runtime_b")
unfolding select_oeqa_result run_le text_le get require_string
two_runs-selected = refl

passing_evidence-valid : validate_evidence any_float passing_evidence true (some a_commit) ≡ ok tt
unfolding validate_evidence validate_contract validate_project validate_inputs validate_build
    validate_test validate_tests validate_negative_paths validate_interrupt_paths validate_dma_paths
    validate_summary result_of summary_of count supported_tests require_exact_keys require_string
    require_integer require_boolean duration_check get fullmatch loosely equal
passing_evidence-valid = refl

passing_evidence-built :
    build_evidence any_float as_it_is two_runs clean_repository "qemux86-64" "edu-image" a_digest
      (pos 0)
    ≡ ok passing_evidence
unfolding build_evidence evidence_of select_oeqa_result run_le text_le strip lstrip rstrip is_space
    validate_evidence validate_contract validate_project validate_inputs validate_build
    validate_test validate_tests validate_negative_paths validate_interrupt_paths validate_dma_paths
    validate_summary result_of summary_of count supported_tests require_exact_keys require_string
    require_integer require_boolean duration_check get fullmatch loosely equal
passing_evidence-built = refl

passing_evidence-result : get "result" passing_evidence ≡ some (str "passed")
unfolding get result_of count
passing_evidence-result = refl

passing_tests-valid :
    validate_tests any_float expected_tests passing_evidence
    ≡ ok (statuses_of (passing_reports expected_tests))
unfolding validate_tests validate_test require_exact_keys require_string duration_check get
passing_tests-valid = refl

validate_evidence-Passes_example : Passes passing_evidence (some a_commit)
validate_evidence-Passes_example =
    validate_evidence-Passes any_float passing_evidence (some a_commit) passing_evidence-valid

select_oeqa_result-IsAmong_example :
    IsAmong "qemux86-64" "edu-image" expected_tests two_runs (run_at "20260102000000" "runtime_b")
    × IsLast "qemux86-64" "edu-image" expected_tests two_runs (run_at "20260102000000" "runtime_b")
select_oeqa_result-IsAmong_example =
    select_oeqa_result-IsAmong two_runs "qemux86-64" "edu-image" expected_tests
      (run_at "20260102000000" "runtime_b") two_runs-selected

build_evidence-IsReported_example :
    (validate_evidence any_float passing_evidence false none ≡ ok tt)
    × (pos 0 ≡ pos 0)
    × ((run : Run) × (select_oeqa_result two_runs "qemux86-64" "edu-image" expected_tests ≡ ok run)
        × IsReported (λ s. s ≡ "PASSED") expected_tests (run.results))
build_evidence-IsReported_example =
    build_evidence-IsReported any_float as_it_is two_runs clean_repository "qemux86-64" "edu-image"
      a_digest (pos 0) passing_evidence passing_evidence-built passing_evidence-result

validate_tests-sum_of_counts_example :
    sum_of_counts oeqa_statuses (statuses_of (passing_reports expected_tests))
    ≡ length expected_tests
validate_tests-sum_of_counts_example =
    validate_tests-sum_of_counts any_float expected_tests passing_evidence
      (statuses_of (passing_reports expected_tests)) passing_tests-valid
