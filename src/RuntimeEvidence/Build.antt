-- ===== src/RuntimeEvidence/Build.antt =====
-- scripts/runtime_evidence.py: `build_evidence`. What Git prints, the lock, its digest, the text of
-- VERSION and the rounding of a duration are arguments.
use yocto_qemu_edu_lab.Common.{
  ℕ, String, str_eq, member, Bool, false, not, Option, none, some, List, [], ◌∷◌, ok, err, ◌>>=◌,
  ensure, strip,
}
use yocto_qemu_edu_lab.Json.{
  ℤ, pos, Json, bool, int, float, str, arr, obj, Items, nil, cons, Fields, end, field, get,
}
use yocto_qemu_edu_lab.Regex.{fullmatch}
use yocto_qemu_edu_lab.RuntimeEvidence.Suite.{
  expected_tests, oeqa_statuses, sha1_pattern, sha256_pattern, summary_of,
}
use yocto_qemu_edu_lab.RuntimeEvidence.Values.{
  bad_revision, bad_digest, bad_status, missing_test, no_release, Checked, duration_check,
}
use yocto_qemu_edu_lab.RuntimeEvidence.Paths.{
  expected_timeout, expected_absence, expected_interrupt_paths, expected_dma_paths,
}
use yocto_qemu_edu_lab.RuntimeEvidence.Validate.{exit_code_of}
use yocto_qemu_edu_lab.RuntimeEvidence.Judge.{result_of, validate_evidence}
use yocto_qemu_edu_lab.RuntimeEvidence.Select.{
  Run, object_or_none, required_string, select_oeqa_result,
}

-- What is read of the repository, or the error that reading it raises: `git rev-parse HEAD`,
-- `git status --porcelain`, the lock, the digest of its bytes, and VERSION.
pub record Repository : Type 0 where
  pub head : Checked String
  pub status : Checked String
  pub lock : Checked Fields
  pub lock_digest : Checked String
  pub version_text : Checked String

-- the revision, and whether the tree is dirty
abbrev pub git_state : Repository → Checked (String × Bool)
git_state repo = repo.head >>= λ head. repo.status >>= λ status.
    ensure (fullmatch sha1_pattern (strip head)) bad_revision >>= λ is_commit.
    ok (strip head, not (str_eq (strip status) ""))

-- `report`, and `report.get("duration", 0.0)`
abbrev pub report_of : String → Fields → Checked Fields
report_of test results = elim (object_or_none (get test results)) [
  | none ↦ err missing_test
  | some report ↦ ok report
]

abbrev pub duration_of : Fields → Json
duration_of report = elim (get "duration" report) [ none ↦ float "0.0" | some duration ↦ duration ]

-- a test that is reported: its status and its duration
abbrev pub Report : Type 0
Report = String × Json

abbrev pub statuses_of : List Report → List String
statuses_of [] = []
statuses_of ((status, duration) ∷ reports) = status ∷ statuses_of reports

abbrev pub release_of : Option Fields → Checked Fields
release_of none = err no_release
release_of (some release) = ok release

-- the values of the strings of the configuration and the release
pub record Strings : Type 0 where
  pub test_type : String
  pub yocto_version : String
  pub yocto_series : String
  pub distro : String
  pub host_distro : String
  pub started_at : String

abbrev pub strings_of : Fields → Fields → Checked Strings
strings_of configuration release = required_string "TEST_TYPE" configuration >>= λ test_type.
    required_string "version" release >>= λ version. required_string "series" release >>= λ series.
    required_string "DISTRO" configuration >>= λ distro.
    required_string "HOST_DISTRO" configuration >>= λ host_distro.
    required_string "STARTTIME" configuration >>= λ started_at. ok (record {
      test_type = test_type;
      yocto_version = version;
      yocto_series = series;
      distro = distro;
      host_distro = host_distro;
      started_at = started_at;
    })

abbrev pub named_version : String → Fields → Fields
named_version name fields = field "name" (str name) (field "version" (int (pos 3)) fields)

abbrev pub contract_value : Strings → List String → Fields
contract_value strings statuses =
    field "guest_interface" (obj (named_version "qemu-edu-sysfs" end)) (
      field "suite"
        (obj (named_version "qemu-edu-baseline" (field "test_type" (str (strings.test_type)) end)))
        (field "interrupt_paths" (obj (expected_interrupt_paths expected_tests statuses)) (
          field "negative_paths"
            (obj (
              field "factorial_timeout" (obj (expected_timeout expected_tests statuses 12))
                (field "device_absence" (obj (expected_absence expected_tests statuses 13)) end)))
            (field "dma_paths" (obj (expected_dma_paths expected_tests statuses)) end))))

abbrev pub project_value : String → String → Bool → Fields
project_value version revision dirty = field "name" (str "yocto-qemu-edu-lab") (
    field "version" (str version)
      (field "revision" (str revision) (field "dirty" (bool dirty) end)))

abbrev pub inputs_value : String → String → Strings → Fields
inputs_value lock_digest oeqa_sha256 strings = field "source_lock_sha256" (str lock_digest) (
    field "oeqa_result_sha256" (str oeqa_sha256) (
      field "yocto_version" (str (strings.yocto_version))
        (field "yocto_series" (str (strings.yocto_series)) end)))

abbrev pub build_value : String → String → Strings → String → ℕ → Fields
build_value machine image strings result_id exit_code = field "machine" (str machine) (
    field "image" (str image) (
      field "distro" (str (strings.distro)) (
        field "host_distro" (str (strings.host_distro)) (
          field "started_at" (str (strings.started_at)) (
            field "oeqa_result_id" (str result_id)
              (field "testimage_exit_code" (int (pos exit_code)) end))))))

module _ (is_finite_positive : String → Bool) (rounded : Json → Json) where
  abbrev pub report_test : String → Fields → Checked Report
  report_test test results = report_of test results >>= λ report.
      required_string "status" report >>= λ status.
      ensure (member status oeqa_statuses) bad_status >>= λ known.
      duration_check is_finite_positive (duration_of report) >>= λ fine.
      ok (status, rounded (duration_of report))

  -- the loop over the tests
  abbrev pub report_tests : List String → Fields → Checked (List Report)
  report_tests [] results = ok []
  report_tests (test ∷ tests) results = report_test test results >>= λ report.
      report_tests tests results >>= λ reports. ok (report ∷ reports)

  abbrev pub tests_items : List String → List Report → Items
  tests_items (test ∷ tests) ((status, duration) ∷ reports) =
      cons
        (obj (
          field "id" (str test)
            (field "status" (str status) (field "duration_seconds" duration end))))
        (tests_items tests reports)
  tests_items tests reports = nil

  abbrev pub evidence_value : Fields → Fields → Fields → Fields → ℕ → List Report → Fields
  evidence_value contract project inputs build exit_code reports =
      field "schema_version" (int (pos 3)) (
        field "kind" (str "qemu-edu-runtime") (
          field "contract" (obj contract) (
            field "project" (obj project) (
              field "inputs" (obj inputs) (
                field "build" (obj build) (
                  field "result" (str (result_of (statuses_of reports) exit_code)) (
                    field "summary" (obj (summary_of (statuses_of reports)))
                      (field "tests" (arr (tests_items expected_tests reports)) end))))))))

  -- what follows the loop: the evidence of these reports, once it is validated
  unfoldable pub evidence_of :
      Repository → String → String → String → Run → ℕ → List Report → Checked Fields
  evidence_of repo machine image oeqa_sha256 run exit_code reports =
      git_state repo >>= λ (revision, dirty). repo.lock >>= λ lock.
      release_of (object_or_none (get "release" lock)) >>= λ release.
      repo.lock_digest >>= λ lock_digest. repo.version_text >>= λ version_text.
      strings_of (run.configuration) release >>= λ strings.
      let evidence =
        evidence_value (contract_value strings (statuses_of reports))
          (project_value (strip version_text) revision dirty)
          (inputs_value lock_digest oeqa_sha256 strings)
          (build_value machine image strings (run.result_id) exit_code) exit_code reports in
      validate_evidence is_finite_positive evidence false none >>= λ valid. ok evidence

  unfoldable pub build_evidence :
      Fields → Repository → String → String → String → ℤ → Checked Fields
  build_evidence oeqa repo machine image oeqa_sha256 testimage_exit_code =
      select_oeqa_result oeqa machine image expected_tests >>= λ run.
      ensure (fullmatch sha256_pattern oeqa_sha256) bad_digest >>= λ is_digest.
      exit_code_of (int testimage_exit_code) >>= λ exit_code.
      report_tests expected_tests (run.results) >>= λ reports.
      evidence_of repo machine image oeqa_sha256 run exit_code reports
