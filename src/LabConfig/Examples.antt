-- ===== src/LabConfig/Examples.antt =====
-- Tests of the model of scripts/lab_config.py on a catalog of one lab, and its theorems there.
use yocto_qemu_edu_lab.Common.{
  ℕ, String, ◌≡◌, refl, lookup, [], ◌∷◌, Result, ok, err, is_space, text_le, put_in, sorted,
}
use yocto_qemu_edu_lab.Json.{Json, int, str, arr, obj, pos, nil, cons, Fields, end, field, get}
use yocto_qemu_edu_lab.Regex.{fullmatch, matches}
use yocto_qemu_edu_lab.SourceLock.Paths.{is_normalized}
use yocto_qemu_edu_lab.SourceLock.Examples.{texts}
use yocto_qemu_edu_lab.LabConfig.Values.{
  LabError, exact_keys, object_value, string_value, integer_value, string_list, has_bad_space,
  relative_path, path_under, guest_binary_path, other_value,
}
use yocto_qemu_edu_lab.LabConfig.Manifest.{
  validate_build, validate_runtime, validate_supply_chain, validate_development, validate_manifest,
}

abbrev build : Fields
build = field "build_dir" (str "build") (
    field "distro" (str "poky") (
      field "machine" (str "qemux86-64") (
        field "driver_target" (str "qemu-edu-driver") (
          field "targets" (arr (texts ("image" ∷ [])))
            (field "layers" (arr (texts ("meta-qemu-edu" ∷ []))) end)))))

abbrev emulator : Fields
emulator =
    field "preflight_profile" (str "qemu-edu-pci-v1")
      (field "system_binary" (str "qemu-system-x86_64") end)

abbrev runtime : String → Fields
runtime suite = field "suite" (str suite) (
    field "evidence_profile" (str "pci-v3") (
      field "evidence_filename" (str "qemu-edu-runtime-v3.json") (
        field "guest_contract_version" (int (pos 3))
          (field "evidence_schema_version" (int (pos 3)) end))))

abbrev rule : String → String → Json
rule name license = obj (field "name" (str name) (field "declared_license" (str license) end))

abbrev supply_chain : Fields
supply_chain = field "evidence_profile" (str "spdx3-image-v1") (
    field "evidence_filename" (str "sbom.json") (
      field "required_packages" (arr (cons (rule "busybox" "GPL-2.0-only") nil))
        (field "forbidden_packages" (arr (texts ("qemu-edu-sdk-sample" ∷ []))) end)))

abbrev development : Fields
development = field "profile" (str "direct-esdk-devtool-v1") (
    field "build_dir" (str "build-sdk-edu") (
      field "recipe" (str "qemu-edu-sdk-sample") (
        field "source_dir" (str "learner-source/qemu-edu-sdk-sample") (
          field "ide" (str "none") (
            field "guest_binary" (str "/usr/bin/qemu-edu-sdk-sample") (
              field "evidence_filename" (str "qemu-edu-sdk-evidence-v1.json")
                (field "evidence_schema_version" (int (pos 1)) end)))))))

abbrev pub manifest : String → Fields
manifest suite = field "schema_version" (int (pos 3)) (
    field "id" (str "edu") (
      field "description" (str "An educational device") (
        field "build" (obj build) (
          field "emulator" (obj emulator) (
            field "runtime" (obj (runtime suite)) (
              field "supply_chain" (obj supply_chain)
                (field "development" (obj development) end)))))))

abbrev pub category : ℕ → String
category c = "Ll"

validate : Fields → Result LabError (Unit {0})
unfolding validate_manifest validate_build validate_runtime validate_supply_chain
    validate_development exact_keys object_value string_value integer_value string_list
    has_bad_space is_space relative_path path_under guest_binary_path is_normalized fullmatch
    matches lookup get sorted put_in text_le
validate lab = validate_manifest category lab "edu"

pub valid : validate_manifest category (manifest "qemu_edu") "edu" ≡ ok tt
unfolding validate
valid = refl

other_suite : validate (manifest "qemu_edu_platform") ≡ err other_value
unfolding validate
other_suite = refl
