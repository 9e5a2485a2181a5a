-- ===== src/RuntimeEvidence/Validate.antt =====
-- scripts/runtime_evidence.py: `validate_evidence`, in the order of its parts. Whether the text of
-- a float is that of a finite number of at least 0 is an argument. A set is walked in the order in
-- which it is written.
use yocto_qemu_edu_lab.Common.{
  ℕ, String, str_eq, member, Bool, Option, none, some, List, [], ◌∷◌, ◌++◌, map, length, leb, ◌==◌,
  if◌then◌else◌, ok, err, ◌>>=◌, ensure, in_turn,
}
use yocto_qemu_edu_lab.Json.{Json, int, pos, str, arr, Fields, items}
use yocto_qemu_edu_lab.Regex.{fullmatch}
use yocto_qemu_edu_lab.RuntimeEvidence.Suite.{
  supported_tests, oeqa_statuses, sha1_pattern, sha256_pattern,
}
use yocto_qemu_edu_lab.RuntimeEvidence.Values.{
  EvidenceError, other_schema, other_guest, other_suite, other_project, bad_revision,
  other_revision, bad_digest, bad_exit_code, bad_tests, other_test, bad_status, Checked, item_at,
  require_exact_keys, object_of, object_at, require_string, string_at, integer_at, boolean_at,
  text_is, duration_check,
}

abbrev pub evidence_keys : List String
evidence_keys =
    "schema_version" ∷ "kind" ∷ "contract" ∷ "project" ∷ "inputs" ∷ "build" ∷ "result" ∷ "summary"
    ∷ "tests" ∷ []

-- the keys of the contract of a version
abbrev pub contract_keys : ℕ → List String
contract_keys version =
    ("guest_interface" ∷ "suite" ∷ "negative_paths" ∷ [])
    ++ ((if leb 2 version then "interrupt_paths" ∷ [] else [])
        ++ (if version == 3 then "dma_paths" ∷ [] else []))

abbrev pub tests_of : ℕ → Checked (List String)
tests_of version = elim (supported_tests version) [
  | none ↦ err other_schema
  | some tests ↦ ok tests
]

abbrev pub version_is : ℕ → EvidenceError → Fields → Checked Unit
version_is version error fields =
    integer_at "version" fields >>= λ found. ensure (found == version) error

unfoldable pub validate_contract : ℕ → Fields → Checked Fields
validate_contract version evidence =
    object_at "contract" (contract_keys version) evidence >>= λ contract.
    object_at "guest_interface" ("name" ∷ "version" ∷ []) contract >>= λ guest.
    in_turn (
      text_is "name" "qemu-edu-sysfs" other_guest guest ∷ version_is version other_guest guest ∷ [])
    >>= λ known. object_at "suite" ("name" ∷ "version" ∷ "test_type" ∷ []) contract >>= λ suite.
        in_turn (
          text_is "name" "qemu-edu-baseline" other_suite suite
          ∷ version_is version other_suite suite
          ∷ text_is "test_type" "runtime" other_suite suite
          ∷ [])
        >>= λ also. ok contract

-- `expected_revision`
abbrev pub revision_check : Option String → String → Checked Unit
revision_check none revision = ok tt
revision_check (some wanted) revision = require_string (str wanted) >>= λ text.
    ensure (fullmatch sha1_pattern text) bad_revision >>= λ is_commit.
    ensure (str_eq revision text) other_revision

-- whether the tree was dirty
unfoldable pub validate_project : Option String → Fields → Checked Bool
validate_project expected_revision evidence =
    object_at "project" ("name" ∷ "version" ∷ "revision" ∷ "dirty" ∷ []) evidence >>= λ project.
    text_is "name" "yocto-qemu-edu-lab" other_project project >>= λ ours.
    string_at "version" project >>= λ version. boolean_at "dirty" project >>= λ dirty.
    string_at "revision" project >>= λ revision.
    ensure (fullmatch sha1_pattern revision) bad_revision >>= λ is_commit.
    revision_check expected_revision revision >>= λ wanted. ok dirty

abbrev pub digest_at : String → Fields → Checked Unit
digest_at key inputs =
    string_at key inputs >>= λ digest. ensure (fullmatch sha256_pattern digest) bad_digest

unfoldable pub validate_inputs : Fields → Checked Unit
validate_inputs evidence =
    object_at "inputs"
      ("source_lock_sha256" ∷ "oeqa_result_sha256" ∷ "yocto_version" ∷ "yocto_series" ∷ []) evidence
    >>= λ inputs. in_turn (
        digest_at "source_lock_sha256" inputs
        ∷ digest_at "oeqa_result_sha256" inputs
        ∷ (string_at "yocto_version" inputs >>= λ version. ok tt)
        ∷ (string_at "yocto_series" inputs >>= λ series. ok tt)
        ∷ [])

abbrev pub build_texts : List String
build_texts = "machine" ∷ "image" ∷ "distro" ∷ "host_distro" ∷ "started_at" ∷ "oeqa_result_id" ∷ []

abbrev pub exit_code_of : Json → Checked ℕ
exit_code_of (int (pos n)) = ensure (leb n 255) bad_exit_code >>= λ small. ok n
exit_code_of _ = err bad_exit_code

-- the exit code
unfoldable pub validate_build : Fields → Checked ℕ
validate_build evidence =
    object_at "build" (build_texts ++ "testimage_exit_code" ∷ []) evidence >>= λ build.
    in_turn (map (λ key. string_at key build >>= λ text. ok tt) build_texts) >>= λ texts.
    item_at "testimage_exit_code" build >>= exit_code_of

module _ (is_finite_positive : String → Bool) where
  unfoldable pub validate_test : String → Json → Checked String
  validate_test expected_id value = object_of value >>= λ test.
      require_exact_keys test ("id" ∷ "status" ∷ "duration_seconds" ∷ []) >>= λ exact.
      text_is "id" expected_id other_test test >>= λ same. string_at "status" test >>= λ status.
      ensure (member status oeqa_statuses) bad_status >>= λ known.
      item_at "duration_seconds" test >>= duration_check is_finite_positive >>= λ fine. ok status

  -- `zip(expected_tests, tests, strict=True)`, of lists of one length
  abbrev pub test_statuses : List String → List Json → Checked (List String)
  test_statuses (i ∷ ids) (value ∷ values) = validate_test i value >>= λ status.
      test_statuses ids values >>= λ statuses. ok (status ∷ statuses)
  test_statuses ids values = ok []

  abbrev pub tests_value : List String → Json → Checked (List String)
  tests_value ids (arr vs) =
      ensure (length (items vs) == length ids) bad_tests >>= λ many. test_statuses ids (items vs)
  tests_value ids _ = err bad_tests

  -- the statuses of the tests
  unfoldable pub validate_tests : List String → Fields → Checked (List String)
  validate_tests ids evidence = item_at "tests" evidence >>= tests_value ids
