-- ===== src/LabConfig/Ruled.antt =====
-- scripts/lab_config.py: the profiles that an accepted manifest names.
use yocto_qemu_edu_lab.Common.{
  String, str_eq, eq_iff, member, lookup, ◌≡◌, ap, ◌∙◌, inl, inr, true, some, List, ok, ◌>>=◌,
  >>=-eq-ok, ensure, ensure-true, Option-cases, if◌then◌else◌, and-true,
}
use yocto_qemu_edu_lab.Json.{str, obj, Fields, get}
use yocto_qemu_edu_lab.Regex.{fullmatch}
use yocto_qemu_edu_lab.SourceLock.Values.{token_pattern}
use yocto_qemu_edu_lab.LabConfig.Values.{
  item_at, exact_keys, object_value, bad_build_dir, bad_token,
}
use yocto_qemu_edu_lab.LabConfig.Profiles.{
  Rule, profile_rules, development_profile_rules, emulator_keys, runtime_keys, development_keys,
}
use yocto_qemu_edu_lab.LabConfig.Fields.{text_at, path_at, rule_checks, evidence_filename_check}
use yocto_qemu_edu_lab.LabConfig.Manifest.{
  rule_of, runtime_reads, development_reads, runtime_actual, validate_runtime, validate_development,
  development_actual, is_sdk_build_dir, sdk_build_dir,
}
use yocto_qemu_edu_lab.LabConfig.Reads.{
  item_at-get, text_at-get, path_at-get, object_at-get, text-IsRead, path-IsRead, under-IsRead,
  guest-IsRead, number-IsRead,
}
use yocto_qemu_edu_lab.LabConfig.Rules.{AllRead, Follows, rule_checks-Follows}

rule_of-found :
    (rules : List (String × Rule)) (profile : String) {rule : Rule}
    → rule_of rules profile ≡ ok rule
    → lookup profile rules ≡ some rule
rule_of-found rules profile h = elim (Option-cases (lookup profile rules)) [
  | inl absent ↦ cc (rw (absent, rule_of) at h)
  | inr (r, found) ↦ cc (rw (found, rule_of) at h)
]

-- the object that a field of a runtime rule stands in
abbrev pub runtime_holder : Fields → Fields → Fields → String → Fields
runtime_holder build emulator runtime key =
    if str_eq key "driver_target"
    then build
    else if str_eq key "system_binary"
    then emulator
    else runtime

-- The emulator names a profile, and the fields that its rule names are as the rule says.
pub record FollowsProfile (lab build : Fields) : Type 0 where
  pub emulator : Fields
  pub runtime : Fields
  pub profile : String
  pub rule : Rule
  pub emulator_at : get "emulator" lab ≡ some (obj emulator)
  pub runtime_at : get "runtime" lab ≡ some (obj runtime)
  pub profile_at : get "preflight_profile" emulator ≡ some (str profile)
  pub known : lookup profile profile_rules ≡ some rule
  pub follows : Follows (runtime_holder build emulator runtime) rule

runtime_reads-AllRead :
    (build emulator runtime : Fields)
    → AllRead (runtime_holder build emulator runtime) (runtime_reads build emulator runtime)
runtime_reads-AllRead build emulator runtime = (
  (λ v. item_at-get "driver_target" build),
  (
    text-IsRead "system_binary" emulator,
    (
      text-IsRead "suite" runtime,
      (
        text-IsRead "evidence_profile" runtime,
        (
          path-IsRead "evidence_filename" runtime,
          (
            number-IsRead "guest_contract_version" runtime,
            (number-IsRead "evidence_schema_version" runtime, tt),
          ),
        ),
      ),
    ),
  ),
)

development_reads-AllRead :
    (development : Fields) → AllRead (λ key. development) (development_reads development)
development_reads-AllRead development = (
  text-IsRead "recipe" development,
  (
    under-IsRead "learner-source" "source_dir" development,
    (
      text-IsRead "ide" development,
      (
        guest-IsRead "guest_binary" development,
        (
          path-IsRead "evidence_filename" development,
          (number-IsRead "evidence_schema_version" development, tt),
        ),
      ),
    ),
  ),
)

pub validate_runtime-FollowsProfile :
    (lab build : Fields) → validate_runtime lab build ≡ ok tt → FollowsProfile lab build
unfolding validate_runtime
validate_runtime-FollowsProfile lab build h =
    let (emulator, found, h1) = >>=-eq-ok (item_at "emulator" lab >>= object_value) _ h in
    let (_, exact, h2) = >>=-eq-ok (exact_keys emulator emulator_keys) _ h1 in
    let (rule, named, h3) =
      >>=-eq-ok (text_at "preflight_profile" emulator >>= rule_of profile_rules) _ h2 in
    let (profile, read, known) = >>=-eq-ok (text_at "preflight_profile" emulator) _ named in
    let (runtime, there, h4) = >>=-eq-ok (item_at "runtime" lab >>= object_value) _ h3 in
    let (_, also, h5) = >>=-eq-ok (exact_keys runtime runtime_keys) _ h4 in
    let (actual, values, h6) = >>=-eq-ok (runtime_actual build emulator runtime) _ h5 in
    let (_, file, ruled) = >>=-eq-ok (evidence_filename_check actual) _ h6 in
    record {
      emulator = emulator;
      runtime = runtime;
      profile = profile;
      rule = rule;
      emulator_at = object_at-get "emulator" lab found;
      runtime_at = object_at-get "runtime" lab there;
      profile_at = text_at-get "preflight_profile" emulator read;
      known = rule_of-found profile_rules profile known;
      follows =
          rule_checks-Follows (runtime_holder build emulator runtime)
            (runtime_reads build emulator runtime) actual rule
            (runtime_reads-AllRead build emulator runtime) values ruled;
    }

-- The development names a profile whose rule its fields follow, builds in the directory of the
-- lab, and its recipe is one that the image must not hold.
pub record FollowsDevelopment (lab : Fields) (i : String) (forbidden : List String) : Type 0 where
  pub development : Fields
  pub profile : String
  pub recipe : String
  pub rule : Rule
  pub development_at : get "development" lab ≡ some (obj development)
  pub profile_at : get "profile" development ≡ some (str profile)
  pub known : lookup profile development_profile_rules ≡ some rule
  pub follows : Follows (λ key. development) rule
  pub build_dir_at : get "build_dir" development ≡ some (str (sdk_build_dir i))
  pub recipe_at : get "recipe" development ≡ some (str recipe)
  pub is_forbidden : member recipe forbidden ≡ true

pub validate_development-FollowsDevelopment :
    (i : String) (forbidden : List String) (lab : Fields)
    → validate_development i forbidden lab ≡ ok tt
    → FollowsDevelopment lab i forbidden
unfolding validate_development
validate_development-FollowsDevelopment i forbidden lab h =
    let (development, found, h1) = >>=-eq-ok (item_at "development" lab >>= object_value) _ h in
    let (_, exact, h2) = >>=-eq-ok (exact_keys development development_keys) _ h1 in
    let (rule, named, h3) =
      >>=-eq-ok (text_at "profile" development >>= rule_of development_profile_rules) _ h2 in
    let (profile, read, known) = >>=-eq-ok (text_at "profile" development) _ named in
    let (dir, placed, h4) = >>=-eq-ok (path_at "build_dir" development) _ h3 in
    let (_, at_lab, h5) = >>=-eq-ok (ensure (is_sdk_build_dir i dir) bad_build_dir) _ h4 in
    let (actual, values, h6) = >>=-eq-ok (development_actual development) _ h5 in
    let (recipe, there, h7) = >>=-eq-ok (text_at "recipe" development) _ h6 in
    let (_, token, h8) = >>=-eq-ok (ensure (fullmatch token_pattern recipe) bad_token) _ h7 in
    let (_, file, h9) = >>=-eq-ok (evidence_filename_check actual) _ h8 in
    let (_, ruled, listed) = >>=-eq-ok (rule_checks rule actual) _ h9 in
    let (is_dir, _) = and-true (str_eq dir (sdk_build_dir i)) _ (ensure-true _ _ at_lab) in
    record {
      development = development;
      profile = profile;
      recipe = recipe;
      rule = rule;
      development_at = object_at-get "development" lab found;
      profile_at = text_at-get "profile" development read;
      known = rule_of-found development_profile_rules profile known;
      follows =
          rule_checks-Follows (λ key. development) (development_reads development) actual rule
            (development_reads-AllRead development) values ruled;
      build_dir_at =
          path_at-get "build_dir" development placed
          ∙ ap (λ t. some (str t)) ((eq_iff dir (sdk_build_dir i)).0 is_dir);
      recipe_at = text_at-get "recipe" development there;
      is_forbidden = ensure-true _ _ listed;
    }
