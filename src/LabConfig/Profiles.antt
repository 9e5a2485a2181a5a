-- ===== src/LabConfig/Profiles.antt =====
-- scripts/lab_config.py: the keys of each object, the patterns and the rules of the profiles.
use yocto_qemu_edu_lab.Common.{ℕ, String, Bool, ◌||◌, List, [], ◌∷◌, ◌==◌, codes}
use yocto_qemu_edu_lab.Json.{Json, int, str, pos}
use yocto_qemu_edu_lab.Regex.{Regex, seq, one, star, maybe, repeated, literal, alnum, hex}
use yocto_qemu_edu_lab.SourceLock.Values.{source_id_pattern}

abbrev pub index_keys : List String
index_keys = "schema_version" ∷ "default_lab" ∷ "labs" ∷ []

abbrev pub index_entry_keys : List String
index_entry_keys = "id" ∷ "manifest" ∷ "sha256" ∷ []

abbrev pub manifest_keys : List String
manifest_keys =
    "schema_version" ∷ "id" ∷ "description" ∷ "build" ∷ "emulator" ∷ "runtime" ∷ "supply_chain"
    ∷ "development" ∷ []

abbrev pub build_keys : List String
build_keys = "build_dir" ∷ "distro" ∷ "machine" ∷ "driver_target" ∷ "targets" ∷ "layers" ∷ []

abbrev pub emulator_keys : List String
emulator_keys = "preflight_profile" ∷ "system_binary" ∷ []

abbrev pub runtime_keys : List String
runtime_keys =
    "suite" ∷ "evidence_profile" ∷ "evidence_filename" ∷ "guest_contract_version"
    ∷ "evidence_schema_version" ∷ []

abbrev pub supply_chain_keys : List String
supply_chain_keys =
    "evidence_profile" ∷ "evidence_filename" ∷ "required_packages" ∷ "forbidden_packages" ∷ []

abbrev pub package_rule_keys : List String
package_rule_keys = "name" ∷ "declared_license" ∷ []

abbrev pub development_keys : List String
development_keys =
    "profile" ∷ "build_dir" ∷ "recipe" ∷ "source_dir" ∷ "ide" ∷ "guest_binary" ∷ "evidence_filename"
    ∷ "evidence_schema_version" ∷ []

-- one name in small letters, digits and dashes
abbrev pub lab_id_pattern : Regex
lab_id_pattern = source_id_pattern

abbrev pub build_directory_pattern : Regex
build_directory_pattern =
    seq (literal (codes "build")) (maybe (seq (literal (codes "-")) lab_id_pattern))

abbrev pub development_build_directory_pattern : Regex
development_build_directory_pattern = seq (literal (codes "build-sdk-")) lab_id_pattern

abbrev pub sha256_pattern : Regex
sha256_pattern = repeated 64 (one hex)

abbrev license_rest : ℕ → Bool
license_rest c =
    alnum c || c == b'.' || c == b'+' || c == b'(' || c == b')' || c == b' ' || c == b'-'

abbrev pub license_expression_pattern : Regex
license_expression_pattern = seq (one alnum) (star (one license_rest))

-- A rule gives the values of some fields.
abbrev pub Rule : Type 0
Rule = List (String × Json)

abbrev pci_rule : Rule
pci_rule =
    ("system_binary", str "qemu-system-x86_64")
    ∷ ("driver_target", str "qemu-edu-driver")
    ∷ ("suite", str "qemu_edu")
    ∷ ("evidence_profile", str "pci-v3")
    ∷ ("evidence_filename", str "qemu-edu-runtime-v3.json")
    ∷ ("guest_contract_version", int (pos 3))
    ∷ ("evidence_schema_version", int (pos 3))
    ∷ []

abbrev platform_rule : Rule
platform_rule =
    ("system_binary", str "qemu-system-aarch64")
    ∷ ("driver_target", str "qemu-edu-platform-driver")
    ∷ ("suite", str "qemu_edu_platform")
    ∷ ("evidence_profile", str "platform-v1")
    ∷ ("evidence_filename", str "qemu-edu-platform-runtime-v1.json")
    ∷ ("guest_contract_version", int (pos 1))
    ∷ ("evidence_schema_version", int (pos 1))
    ∷ []

abbrev pub profile_rules : List (String × Rule)
profile_rules = ("qemu-edu-pci-v1", pci_rule) ∷ ("qemu-edu-platform-v1", platform_rule) ∷ []

abbrev devtool_rule : Rule
devtool_rule =
    ("recipe", str "qemu-edu-sdk-sample")
    ∷ ("source_dir", str "learner-source/qemu-edu-sdk-sample")
    ∷ ("ide", str "none")
    ∷ ("guest_binary", str "/usr/bin/qemu-edu-sdk-sample")
    ∷ ("evidence_filename", str "qemu-edu-sdk-evidence-v1.json")
    ∷ ("evidence_schema_version", int (pos 1))
    ∷ []

abbrev pub development_profile_rules : List (String × Rule)
development_profile_rules = ("direct-esdk-devtool-v1", devtool_rule) ∷ []
