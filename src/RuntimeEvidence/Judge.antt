-- ===== src/RuntimeEvidence/Judge.antt =====
-- scripts/runtime_evidence.py: `validate_evidence` as a whole: the paths of the contract, the summary
-- and the result, against the statuses of the tests.
use yocto_qemu_edu_lab.Common.{
  ℕ, String, Bool, true, false, ◌&&◌, not, Option, none, some, List, [], ◌∷◌, map, length, leb,
  ◌==◌, if◌then◌else◌, ok, ◌>>=◌, ensure, in_turn,
}
use yocto_qemu_edu_lab.Json.{Json, obj, Fields}
use yocto_qemu_edu_lab.RepositoryTrust.Arrays.{loosely}
use yocto_qemu_edu_lab.RuntimeEvidence.Suite.{summary_keys, count, summary_of}
use yocto_qemu_edu_lab.RuntimeEvidence.Values.{
  EvidenceError, other_schema, timeout_differs, absence_differs, interrupts_differ, dma_differ,
  summary_differs, result_differs, not_passed, not_clean, no_negative_path, no_interrupt_path,
  no_dma_path, Checked, item_at, require_exact_keys, object_of, object_at, integer_at, boolean_at,
  text_is,
}
use yocto_qemu_edu_lab.RuntimeEvidence.Paths.{
  KeyTable, interrupt_keys, dma_keys, expected_timeout, expected_absence, expected_interrupt_paths,
  expected_dma_paths,
}
use yocto_qemu_edu_lab.RuntimeEvidence.Validate.{
  evidence_keys, tests_of, validate_contract, validate_project, validate_inputs, validate_build,
  validate_tests,
}

-- both are objects, and then both have their keys
abbrev pub negative_objects : Fields → Checked (Fields × Fields)
negative_objects paths = item_at "factorial_timeout" paths >>= λ timeout_value.
    item_at "device_absence" paths >>= λ absence_value. object_of timeout_value >>= λ timeout.
    object_of absence_value >>= λ absence.
    require_exact_keys timeout ("case_id" ∷ "exercised" ∷ "fault_injected" ∷ "mechanism" ∷ [])
    >>= λ exact.
        require_exact_keys absence
          ("case_id" ∷ "exercised" ∷ "mechanism" ∷ "cold_boot_without_device" ∷ [])
        >>= λ also. ok (timeout, absence)

-- a value that must be a Boolean, whichever
abbrev pub is_boolean : String → Fields → Checked Unit
is_boolean key fields = boolean_at key fields >>= λ b. ok tt

abbrev pub is_integer : String → Fields → Checked Unit
is_integer key fields = integer_at key fields >>= λ n. ok tt

abbrev pub timeout_index : ℕ → ℕ
timeout_index version = if version == 1 then 9 else 12

abbrev pub absence_index : ℕ → ℕ
absence_index version = if version == 1 then 10 else 13

-- the two paths, where they are as the statuses require them
unfoldable pub validate_negative_paths :
    ℕ → List String → List String → Fields → Checked (Fields × Fields)
validate_negative_paths version tests statuses contract =
    object_at "negative_paths" ("factorial_timeout" ∷ "device_absence" ∷ []) contract >>= λ paths.
    negative_objects paths >>= λ (timeout, absence).
    in_turn (
      is_boolean "exercised" timeout
      ∷ is_boolean "fault_injected" timeout
      ∷ is_boolean "exercised" absence
      ∷ is_boolean "cold_boot_without_device" absence
      ∷ ensure
          (loosely (obj timeout) (obj (expected_timeout tests statuses (timeout_index version))))
          timeout_differs
      ∷ ensure
          (loosely (obj absence) (obj (expected_absence tests statuses (absence_index version))))
          absence_differs
      ∷ [])
    >>= λ fine. ok (timeout, absence)

-- each path of a table is an object with its keys, and says whether it was exercised
abbrev pub path_checks : Fields → KeyTable → Checked Unit
path_checks paths [] = ok tt
path_checks paths ((name, expected) ∷ table) = object_at name expected paths >>= λ path.
    is_boolean "exercised" path >>= λ fine. path_checks paths table

-- `paths[name][key]`, for a path that is an object
abbrev pub in_path : String → (Fields → Checked Unit) → Fields → Checked Unit
in_path name test paths = item_at name paths >>= object_of >>= test

abbrev pub names_of : KeyTable → List String
names_of table = map (λ p. p.0) table

unfoldable pub validate_interrupt_paths : List String → List String → Fields → Checked Fields
validate_interrupt_paths tests statuses contract =
    object_at "interrupt_paths" (names_of interrupt_keys) contract >>= λ paths.
    in_turn (
      path_checks paths interrupt_keys
      ∷ in_path "required_msi_failure" (is_boolean "device_unbound") paths
      ∷ ensure (loosely (obj paths) (obj (expected_interrupt_paths tests statuses)))
          interrupts_differ
      ∷ [])
    >>= λ fine. ok paths

unfoldable pub validate_dma_paths : List String → List String → Fields → Checked Fields
validate_dma_paths tests statuses contract =
    object_at "dma_paths" (names_of dma_keys) contract >>= λ paths.
    in_turn (
      path_checks paths dma_keys
      ∷ in_path "bounded_interface" (is_boolean "length_only") paths
      ∷ in_path "bounded_interface" (is_boolean "address_exposed") paths
      ∷ in_path "input_rejection" (is_boolean "preserves_last_result") paths
      ∷ in_path "timeout_recovery" (is_boolean "fault_injected") paths
      ∷ in_path "bounded_interface" (is_integer "mask_bits") paths
      ∷ in_path "bounded_interface" (is_integer "buffer_size_bytes") paths
      ∷ in_path "roundtrip_boundaries" (is_integer "minimum_length") paths
      ∷ in_path "roundtrip_boundaries" (is_integer "maximum_length") paths
      ∷ in_path "roundtrip_boundaries" (is_integer "interrupts_per_roundtrip") paths
      ∷ ensure (loosely (obj paths) (obj (expected_dma_paths tests statuses))) dma_differ
      ∷ [])
    >>= λ fine. ok paths

-- what a version has not is `None`
abbrev pub when : Bool → Checked Fields → Checked (Option Fields)
when true checked = checked >>= λ paths. ok (some paths)
when false checked = ok none

abbrev pub summary_names : List String
summary_names = "total" ∷ map (λ p. p.1) summary_keys

unfoldable pub validate_summary : List String → Fields → Checked Unit
validate_summary statuses evidence = object_at "summary" summary_names evidence >>= λ summary.
    in_turn (map (λ key. is_integer key summary) summary_names) >>= λ integers.
    ensure (loosely (obj summary) (obj (summary_of statuses))) summary_differs

-- `expected_result`
unfoldable pub result_of : List String → ℕ → String
unfolding count
result_of statuses exit_code =
    if count "PASSED" statuses == length statuses && exit_code == 0 then "passed" else "failed"

-- `value["exercised"]`, of a path
abbrev pub exercised : Json → Checked Bool
exercised value = object_of value >>= boolean_at "exercised"

abbrev pub all_exercised : EvidenceError → List Json → Checked Unit
all_exercised error [] = ok tt
all_exercised error (value ∷ values) =
    exercised value >>= λ done. ensure done error >>= λ fine. all_exercised error values

abbrev pub values_of : Fields → List Json
values_of Fields.end = []
values_of (Fields.field key value fields) = value ∷ values_of fields

abbrev pub paths_exercised : EvidenceError → Option Fields → Checked Unit
paths_exercised error none = ok tt
paths_exercised error (some paths) = all_exercised error (values_of paths)

abbrev pub pass_checks :
    Fields → Bool → Fields × Fields → Option Fields → Option Fields → List (Checked Unit)
pass_checks evidence dirty (timeout, absence) interrupts dma =
    text_is "result" "passed" not_passed evidence
    ∷ ensure (not dirty) not_clean
    ∷ (boolean_at "exercised" timeout >>= λ done. ensure done no_negative_path)
    ∷ (boolean_at "exercised" absence >>= λ done. ensure done no_negative_path)
    ∷ paths_exercised no_interrupt_path interrupts
    ∷ paths_exercised no_dma_path dma
    ∷ []

abbrev pub only_if : Bool → Checked Unit → Checked Unit
only_if true checked = checked
only_if false checked = ok tt

module _ (is_finite_positive : String → Bool) where
  unfoldable pub validate_evidence : Fields → Bool → Option String → Checked Unit
  validate_evidence evidence require_pass expected_revision =
      require_exact_keys evidence evidence_keys >>= λ exact.
      integer_at "schema_version" evidence >>= λ version. tests_of version >>= λ tests.
      text_is "kind" "qemu-edu-runtime" other_schema evidence >>= λ kind.
      validate_contract version evidence >>= λ contract.
      validate_project expected_revision evidence >>= λ dirty.
      validate_inputs evidence >>= λ inputs. validate_build evidence >>= λ exit_code.
      validate_tests is_finite_positive tests evidence >>= λ statuses.
      validate_negative_paths version tests statuses contract >>= λ negative.
      when (leb 2 version) (validate_interrupt_paths tests statuses contract) >>= λ interrupts.
      when (version == 3) (validate_dma_paths tests statuses contract) >>= λ dma.
      validate_summary statuses evidence >>= λ summed.
      text_is "result" (result_of statuses exit_code) result_differs evidence >>= λ judged.
      only_if require_pass (in_turn (pass_checks evidence dirty negative interrupts dma))
