-- ===== src/RuntimeEvidence/Suite.antt =====
-- scripts/runtime_evidence.py: the constants, the suites of the three versions and the counts.
use yocto_qemu_edu_lab.Common.{
  ℕ, zero, suc, String, str_eq, Bool, Option, none, some, List, [], ◌∷◌, ◌++◌, map, length,
  if◌then◌else◌,
}
use yocto_qemu_edu_lab.Json.{int, pos, Fields, end, field}
use yocto_qemu_edu_lab.Regex.{Regex, one, repeated, hex}

abbrev pub max_string_length : ℕ
max_string_length = 4096

abbrev pub common_tests : List String
common_tests =
    "qemu_edu.QemuEduRuntimeTests.test_00_driver_registered"
    ∷ "qemu_edu.QemuEduRuntimeTests.test_01_pci_device_bound"
    ∷ "qemu_edu.QemuEduRuntimeTests.test_02_identification_register"
    ∷ "qemu_edu.QemuEduRuntimeTests.test_03_initial_operation_state"
    ∷ "qemu_edu.QemuEduRuntimeTests.test_04_liveness_inversion"
    ∷ "qemu_edu.QemuEduRuntimeTests.test_05_factorial_boundaries"
    ∷ "qemu_edu.QemuEduRuntimeTests.test_06_invalid_factorial_inputs" ∷ []

abbrev pub v1_expected_tests : List String
v1_expected_tests =
    common_tests
    ++ "qemu_edu.QemuEduRuntimeTests.test_07_legacy_interrupt"
      ∷ "qemu_edu.QemuEduRuntimeTests.test_08_zero_interrupt_rejected"
      ∷ "qemu_edu.QemuEduRuntimeTests.test_09_factorial_timeout"
      ∷ "qemu_edu.QemuEduRuntimeTests.test_10_removed_device_diagnostic" ∷ []

abbrev pub v2_expected_tests : List String
v2_expected_tests =
    common_tests
    ++ "qemu_edu.QemuEduRuntimeTests.test_07_default_and_required_msi"
      ∷ "qemu_edu.QemuEduRuntimeTests.test_08_explicit_intx_comparison"
      ∷ "qemu_edu.QemuEduRuntimeTests.test_09_automatic_intx_fallback"
      ∷ "qemu_edu.QemuEduRuntimeTests.test_10_required_msi_failure_and_cleanup"
      ∷ "qemu_edu.QemuEduRuntimeTests.test_11_zero_interrupt_rejected"
      ∷ "qemu_edu.QemuEduRuntimeTests.test_12_factorial_timeout"
      ∷ "qemu_edu.QemuEduRuntimeTests.test_13_removed_device_diagnostic" ∷ []

abbrev pub expected_tests : List String
expected_tests =
    v2_expected_tests
    ++ "qemu_edu.QemuEduRuntimeTests.test_14_dma_contract"
      ∷ "qemu_edu.QemuEduRuntimeTests.test_15_dma_roundtrip_boundaries"
      ∷ "qemu_edu.QemuEduRuntimeTests.test_16_invalid_dma_inputs"
      ∷ "qemu_edu.QemuEduRuntimeTests.test_17_dma_timeout_and_recovery"
      ∷ "qemu_edu.QemuEduRuntimeTests.test_18_dma_teardown_and_rebind" ∷ []

-- `SUPPORTED_TESTS.get(version)`
unfoldable pub supported_tests : ℕ → Option (List String)
supported_tests (suc zero) = some v1_expected_tests
supported_tests (suc (suc zero)) = some v2_expected_tests
supported_tests (suc (suc (suc zero))) = some expected_tests
supported_tests _ = none

-- the statuses, with the keys of the summary
abbrev pub summary_keys : List (String × String)
summary_keys =
    ("PASSED", "passed")
    ∷ ("FAILED", "failed")
    ∷ ("ERROR", "errors")
    ∷ ("SKIPPED", "skipped")
    ∷ ("EXPECTEDFAIL", "expected_failures")
    ∷ ("UNKNOWN", "unknown")
    ∷ []

abbrev pub oeqa_statuses : List String
oeqa_statuses = map (λ p. p.0) summary_keys

abbrev pub sha1_pattern : Regex
sha1_pattern = repeated 40 (one hex)

abbrev pub sha256_pattern : Regex
sha256_pattern = repeated 64 (one hex)

-- `Counter(statuses)[status]`
unfoldable pub count : String → List String → ℕ
count status [] = 0
count status (s ∷ statuses) =
    let rest = count status statuses in if str_eq s status then suc rest else rest

abbrev pub count_fields : List (String × String) → List String → Fields
count_fields [] statuses = end
count_fields ((status, key) ∷ keys) statuses =
    field key (int (pos (count status statuses))) (count_fields keys statuses)

-- `expected_summary`
unfoldable pub summary_of : List String → Fields
unfolding count
summary_of statuses =
    field "total" (int (pos (length statuses))) (count_fields summary_keys statuses)

-- `tests[index]`, of an index within the list
abbrev pub nth : List String → ℕ → String
nth [] index = ""
nth (text ∷ texts) zero = text
nth (text ∷ texts) (suc index) = nth texts index

abbrev pub passed_at : List String → ℕ → Bool
passed_at statuses index = str_eq (nth statuses index) "PASSED"
