-- ===== src/LabConfig/Manifest.antt =====
-- scripts/lab_config.py: `validate_manifest`, in the order of its parts. The table of Unicode
-- categories is an argument.
use Prim.Native.String
use yocto_qemu_edu_lab.Common.{
  ℕ, String, str_eq, member, lookup, Bool, ◌&&◌, not, none, some, List, [], ◌∷◌, map, any, all,
  codes, length, leb, same_list, sorted, ok, err, ◌>>=◌, ensure, in_turn,
}
use yocto_qemu_edu_lab.Json.{Json, str, arr, Fields, items}
use yocto_qemu_edu_lab.Regex.{fullmatch}
use yocto_qemu_edu_lab.SourceLock.Values.{token_pattern}
use yocto_qemu_edu_lab.LabConfig.Values.{
  Checked, bad_version, other_id, bad_description, bad_build_dir, bad_token, not_one_target,
  unknown_profile, bad_evidence_profile, not_array, too_many_packages, bad_license,
  packages_not_sorted, forbidden_not_sorted, rules_overlap, not_forbidden, item_at, exact_keys,
  object_value, string_list, is_distinct, relative_path, path_under, guest_binary_path,
}
use yocto_qemu_edu_lab.LabConfig.Profiles.{
  Rule, manifest_keys, build_keys, emulator_keys, runtime_keys, supply_chain_keys,
  package_rule_keys, development_keys, lab_id_pattern, build_directory_pattern,
  development_build_directory_pattern, license_expression_pattern, profile_rules,
  development_profile_rules,
}
use yocto_qemu_edu_lab.LabConfig.Fields.{
  is_version, text_at, path_at, as_text, number_at, collect, rule_checks, filename_check,
  evidence_filename_check, token_at,
}

abbrev pub one_target : List String → Checked Unit
one_target (target ∷ []) = ensure (fullmatch token_pattern target) bad_token
one_target _ = err not_one_target

abbrev pub build_checks : Fields → List (Checked Unit)
build_checks build =
    exact_keys build build_keys
    ∷ (path_at "build_dir" build >>= λ dir.
        ensure (fullmatch build_directory_pattern dir) bad_build_dir)
    ∷ token_at "distro" build
    ∷ token_at "machine" build
    ∷ token_at "driver_target" build
    ∷ (item_at "targets" build >>= string_list >>= one_target)
    ∷ (item_at "layers" build >>= string_list >>= λ layers.
        in_turn (map (λ layer. relative_path (str layer) >>= λ path. ok tt) layers))
    ∷ []

unfoldable pub validate_build : Json → Checked Fields
validate_build value =
    object_value value >>= λ build. in_turn (build_checks build) >>= λ fine. ok build

abbrev pub rule_of : List (String × Rule) → String → Checked Rule
rule_of rules profile = elim (lookup profile rules) [ none ↦ err unknown_profile | some r ↦ ok r ]

abbrev pub runtime_reads : Fields → Fields → Fields → List (String × Checked Json)
runtime_reads build emulator runtime =
    ("driver_target", item_at "driver_target" build)
    ∷ ("system_binary", as_text (text_at "system_binary" emulator))
    ∷ ("suite", as_text (text_at "suite" runtime))
    ∷ ("evidence_profile", as_text (text_at "evidence_profile" runtime))
    ∷ ("evidence_filename", as_text (path_at "evidence_filename" runtime))
    ∷ ("guest_contract_version", number_at "guest_contract_version" runtime)
    ∷ ("evidence_schema_version", number_at "evidence_schema_version" runtime)
    ∷ []

abbrev pub runtime_actual : Fields → Fields → Fields → Checked (List (String × Json))
runtime_actual build emulator runtime = collect (runtime_reads build emulator runtime)

unfoldable pub validate_runtime : Fields → Fields → Checked Unit
validate_runtime lab build = item_at "emulator" lab >>= object_value >>= λ emulator.
    exact_keys emulator emulator_keys >>= λ exact.
    text_at "preflight_profile" emulator >>= rule_of profile_rules >>= λ rule.
    item_at "runtime" lab >>= object_value >>= λ runtime.
    exact_keys runtime runtime_keys >>= λ also. runtime_actual build emulator runtime >>= λ actual.
    evidence_filename_check actual >>= λ named. rule_checks rule actual

abbrev pub package_name : Json → Checked String
package_name value = object_value value >>= λ rules. exact_keys rules package_rule_keys >>= λ exact.
    text_at "name" rules >>= λ name. ensure (fullmatch token_pattern name) bad_token >>= λ fine.
    text_at "declared_license" rules >>= λ license.
    ensure (fullmatch license_expression_pattern license) bad_license >>= λ also. ok name

abbrev pub names_of : List Json → Checked (List String)
names_of [] = ok []
names_of (v ∷ vs) = package_name v >>= λ name. names_of vs >>= λ names. ok (name ∷ names)

abbrev pub max_packages : ℕ
max_packages = 64

abbrev pub package_values : List Json → Checked (List String)
package_values [] = err not_array
package_values (v ∷ vs) =
    ensure (leb (length (v ∷ vs)) max_packages) too_many_packages >>= λ few. names_of (v ∷ vs)

abbrev pub package_list : Json → Checked (List String)
package_list (arr vs) = package_values (items vs)
package_list _ = err not_array

abbrev pub forbidden_checks : List String → List String → List (Checked Unit)
forbidden_checks names forbidden =
    ensure (leb (length forbidden) max_packages) too_many_packages
    ∷ ensure (same_list forbidden (sorted forbidden)) forbidden_not_sorted
    ∷ ensure (all (fullmatch token_pattern) forbidden) bad_token
    ∷ ensure (not (any (λ name. member name forbidden) names)) rules_overlap
    ∷ []

-- The names of the forbidden packages are what the rest uses.
unfoldable pub validate_supply_chain : Fields → Checked (List String)
validate_supply_chain lab = item_at "supply_chain" lab >>= object_value >>= λ supply.
    exact_keys supply supply_chain_keys >>= λ exact.
    text_at "evidence_profile" supply >>= λ profile.
    ensure (str_eq profile "spdx3-image-v1") bad_evidence_profile >>= λ known.
    path_at "evidence_filename" supply >>= filename_check >>= λ named.
    item_at "required_packages" supply >>= package_list >>= λ names.
    ensure (same_list names (sorted names) && is_distinct names) packages_not_sorted >>= λ in_order.
    item_at "forbidden_packages" supply >>= string_list >>= λ forbidden.
    in_turn (forbidden_checks names forbidden) >>= λ fine. ok forbidden

abbrev pub development_reads : Fields → List (String × Checked Json)
development_reads development =
    ("recipe", as_text (text_at "recipe" development))
    ∷ ("source_dir", as_text (item_at "source_dir" development >>= path_under "learner-source"))
    ∷ ("ide", as_text (text_at "ide" development))
    ∷ ("guest_binary", as_text (item_at "guest_binary" development >>= guest_binary_path))
    ∷ ("evidence_filename", as_text (path_at "evidence_filename" development))
    ∷ ("evidence_schema_version", number_at "evidence_schema_version" development)
    ∷ []

abbrev pub development_actual : Fields → Checked (List (String × Json))
development_actual development = collect (development_reads development)

-- f"build-sdk-{expected_id}"
abbrev pub sdk_build_dir : String → String
sdk_build_dir expected_id = String.◌++◌ "build-sdk-" expected_id

abbrev pub is_sdk_build_dir : String → String → Bool
is_sdk_build_dir expected_id dir =
    str_eq dir (sdk_build_dir expected_id) && fullmatch development_build_directory_pattern dir

unfoldable pub validate_development : String → List String → Fields → Checked Unit
validate_development expected_id forbidden lab =
    item_at "development" lab >>= object_value >>= λ development.
    exact_keys development development_keys >>= λ exact.
    text_at "profile" development >>= rule_of development_profile_rules >>= λ rule.
    path_at "build_dir" development >>= λ dir.
    ensure (is_sdk_build_dir expected_id dir) bad_build_dir >>= λ placed.
    development_actual development >>= λ actual. text_at "recipe" development >>= λ recipe.
    ensure (fullmatch token_pattern recipe) bad_token >>= λ token.
    evidence_filename_check actual >>= λ named.
    rule_checks rule actual >>= λ ruled. ensure (member recipe forbidden) not_forbidden

module _ (category : ℕ → String) where
  abbrev is_unsafe : ℕ → Bool
  is_unsafe c = member (category c) ("Cc" ∷ "Cf" ∷ "Zl" ∷ "Zp" ∷ [])

  abbrev pub identity_checks : String → Fields → List (Checked Unit)
  identity_checks expected_id lab =
      exact_keys lab manifest_keys
      ∷ (item_at "schema_version" lab >>= λ version. ensure (is_version 3 version) bad_version)
      ∷ (text_at "id" lab >>= λ i.
          ensure (str_eq i expected_id && fullmatch lab_id_pattern i) other_id)
      ∷ (text_at "description" lab >>= λ description.
          ensure (not (any is_unsafe (codes description))) bad_description)
      ∷ []

  unfoldable pub validate_manifest : Fields → String → Checked Unit
  validate_manifest lab expected_id = in_turn (identity_checks expected_id lab) >>= λ identity.
      item_at "build" lab >>= validate_build >>= λ build. validate_runtime lab build >>= λ run.
      validate_supply_chain lab >>= λ forbidden. validate_development expected_id forbidden lab
