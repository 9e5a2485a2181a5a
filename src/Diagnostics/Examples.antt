-- ===== src/Diagnostics/Examples.antt =====
-- Tests of the model of scripts/diagnostics.py on one environment, and its theorems there.
use yocto_qemu_edu_lab.Common.{
  String, strip, ◌≡◌, refl, ap, true, false, List, [], ◌∷◌, none, some, all, Result, ok, err, ◌↔◌,
}
use yocto_qemu_edu_lab.Regex.{fullmatch}
use yocto_qemu_edu_lab.Diagnostics.Patterns.{valid_project_version}
use yocto_qemu_edu_lab.Json.{null}
use yocto_qemu_edu_lab.Diagnostics.Checks.{
  CheckId, pass, warning, Check, checks, evidence, aggregate, Raised,
}
use yocto_qemu_edu_lab.Diagnostics.Environment.{
  Environment, got, done, Lock, Manifest, Source, Index, Evidence,
}
use yocto_qemu_edu_lab.Diagnostics.Context.{
  fresh, Context, init, project_version, repository, source_lock, lab_catalog, selection,
  evidence_file, evidence_document_check, evidence_result_check, evidence_inputs_check,
  evidence_subject_check, unless_blocked, binding_of, safe_fields, describes_selection, passes,
  inputs_status,
}
use yocto_qemu_edu_lab.Diagnostics.Transitions.{validate_state_transitions, statuses_of}
use yocto_qemu_edu_lab.Diagnostics.Commands.{command_checks}
use yocto_qemu_edu_lab.Diagnostics.Steps.Held.{is_some}
use yocto_qemu_edu_lab.Diagnostics.Aggregate.{aggregate-zero, acceptable}
use yocto_qemu_edu_lab.Diagnostics.Consistent.{command_checks-transitions, command_checks-run_all}
use yocto_qemu_edu_lab.Diagnostics.Selected.{IsSelected}
use yocto_qemu_edu_lab.Diagnostics.Exit.{exit_zero-passed, exit_zero-data}

abbrev revision : String
revision = "00112233445566778899aabbccddeeff00112233"

abbrev source_of : String → Source
source_of i = record {
  id = i;
  url = "https://git.openembedded.org/bitbake";
  branch_ref = "refs/heads/master";
  release_ref = "refs/tags/yocto-6.0";
  commit = revision;
  object_format = "sha1";
  path = "layers/bitbake";
  required_paths = [];
}

abbrev lock : Lock
lock = record {
  release = record { version = "6.0.2"; series = "wrynose" };
  sources = source_of "bitbake" ∷ source_of "openembedded-core" ∷ source_of "meta-yocto" ∷ [];
}

abbrev manifest : Manifest
manifest = record {
  build_dir = "build";
  machine = "qemu-edu-x86-64";
  image = "qemu-edu-image";
  driver_target = "qemu-edu-driver";
  layers = "meta-qemu-edu" ∷ [];
  preflight_profile = "edu-v1";
  system_binary = "qemu-system-x86_64";
  suite = "qemu_edu";
  evidence_profile = "pci-v3";
  evidence_filename = "evidence.json";
  guest_contract_version = 3;
  evidence_schema_version = 3;
}

abbrev index : Index
index = record {
  default_lab = "pci-x86-64";
  labs = record { id = "pci-x86-64"; manifest = "pci.json" } ∷ [];
}

abbrev document : Evidence
document = record {
  kind = "qemu-edu-runtime";
  schema_version = 3;
  version = "1.2.3";
  revision = revision;
  dirty = false;
  lab = none;
  machine = "qemu-edu-x86-64";
  image = "qemu-edu-image";
  testimage_exit_code = 0;
  result = "passed";
  summary = [];
  oeqa_result_sha256 = "";
  source_lock_sha256 = "lock";
  lab_index_sha256 = none;
  lab_manifest_sha256 = none;
}

-- every file is there and every tool works
abbrev healthy : Environment
healthy = record {
  read_regular = λ name bound. got [];
  require_directory = λ name. got name;
  require_entry = λ name. got name;
  decode_utf8 = λ raw. some "1.2.3";
  encode_utf8 = λ text. [];
  sha256 = λ raw. "digest";
  resolve_native = λ name. done name;
  git_version = λ git. done "2.43";
  repository_state = λ git. done (revision, false);
  checkout_matches = λ git path source. done true;
  parse_toml_bytes = λ raw. some null;
  validate_models = λ config tasks ledger. ([], none);
  parse_lock_bytes = λ raw. some (lock, "lock");
  parse_index_bytes = λ raw. some index;
  read_catalog_bytes = λ raw manifests l. some (record {
    index = index;
    index_digest = "index";
    manifests = ("pci-x86-64", manifest) ∷ [];
    manifest_digests = ("pci-x86-64", "manifest") ∷ [];
  });
  parse_object_bytes = λ raw. some null;
  document_kind = λ json. some "qemu-edu-runtime";
  validate_evidence = λ json strict. true;
  validate_platform_evidence = λ json strict. false;
  evidence_of = λ json. document;
}

-- A proof that opens this opens all that the command calls.
run_evidence : Environment → Result Raised (List Check × Context)
unfolding command_checks init project_version repository source_lock lab_catalog selection
    evidence_file evidence_document_check evidence_result_check evidence_inputs_check
    evidence_subject_check unless_blocked binding_of safe_fields describes_selection passes
    inputs_status valid_project_version strip fullmatch
run_evidence e = command_checks e evidence none

abbrev outcome : Result Raised (List Check × Context) → List Check × Context
outcome (ok r) = r
outcome (err x) = ([], fresh none)

abbrev made : List Check
made = (outcome (command_checks healthy evidence none)).0

abbrev left : Context
left = (outcome (command_checks healthy evidence none)).1

ran : command_checks healthy evidence none ≡ ok (made, left)
unfolding run_evidence
ran = refl

-- The historical PCI evidence records no lab catalog, so the result is a warning.
ran_warning : aggregate made ≡ (warning, 0)
unfolding aggregate checks run_evidence
ran_warning = refl

command_checks-transitions_example : validate_state_transitions (statuses_of made) ≡ true
command_checks-transitions_example = command_checks-transitions healthy evidence none made left ran

exit_zero-passed_example : left.statuses CheckId.lab_catalog ≡ some pass
exit_zero-passed_example =
    exit_zero-passed healthy evidence none made left CheckId.lab_catalog ran
      (ap (λ p. p.1) ran_warning) refl refl

exit_zero-data_example :
    (is_some left.version ≡ true) × (is_some left.revision ≡ true) × IsSelected healthy none left
exit_zero-data_example =
    exit_zero-data healthy evidence none made left ran (ap (λ p. p.1) ran_warning)

command_checks-run_all_example : command_checks healthy evidence none ≡ ok (made, left)
unfolding run_evidence
command_checks-run_all_example =
    command_checks-run_all healthy evidence none {c = fresh none} (made, left) refl refl

aggregate-zero_example : ((aggregate made).1 ≡ 0) ↔ (all acceptable made ≡ true)
aggregate-zero_example = aggregate-zero made
