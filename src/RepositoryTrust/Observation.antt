-- ===== src/RepositoryTrust/Observation.antt =====
-- scripts/repository_trust.py: `validate_observation`, which returns the observation with its
-- arrays sorted. The shape of the JSON, which it also bounds, is not part of it here.
use yocto_qemu_edu_lab.Common.{
  String, Bool, false, ◌&&◌, none, some, List, [], ◌∷◌, ◌++◌, leb, length, codes, ok, err, ◌>>=◌,
  ◌>>◌, ◌==◌,
}
use yocto_qemu_edu_lab.Json.{Json, int, pos, str, obj, Fields, get}
use yocto_qemu_edu_lab.Regex.{fullmatch}
use yocto_qemu_edu_lab.RepositoryTrust.Values.{
  Checked, require, bad_schema_version, bad_name, bad_contact, contact_pattern, item_of,
  exact_object, boolean, integer, enum_string, token, timestamp,
}
use yocto_qemu_edu_lab.RepositoryTrust.Arrays.{merge_methods, patterns, status_checks}
use yocto_qemu_edu_lab.RepositoryTrust.Facts.{
  put, repository_keys, direct_action_keys, selected_keys, direct_ruleset_keys, security_keys,
}

-- a validator of the value of each key
abbrev pub Rules : Type 0
Rules = List (String × (Json → Checked Json))

-- `if key in table: table[key] = validate(table[key])`, for each key
unfoldable pub validate_each : Rules → Fields → Checked Fields
unfolding put
validate_each [] table = ok table
validate_each ((key, validate) ∷ rules) table = elim (get key table) [
  | none ↦ validate_each rules table
  | some value ↦ validate value >>= λ valid. validate_each rules (put key valid table)
]

abbrev pub table_of : List String → Rules → Json → Checked Json
table_of allowed rules value =
    exact_object value allowed [] >>= λ table. validate_each rules table >>= λ valid. ok (obj valid)

unfoldable pub rule_name : Json → Checked Json
rule_name (str s) =
    require (leb 1 (length (codes s)) && leb (length (codes s)) 128) bad_name >> ok (str s)
rule_name _ = err bad_name

unfoldable pub contact : Json → Checked Json
unfolding fullmatch
contact (str s) = require (fullmatch contact_pattern s) bad_contact >> ok (str s)
contact _ = err bad_contact

abbrev pub visibilities : List String
visibilities = "public" ∷ "private" ∷ "internal" ∷ []

abbrev pub allowed_action_names : List String
allowed_action_names = "all" ∷ "local_only" ∷ "selected" ∷ []

abbrev pub permissions : List String
permissions = "read" ∷ "write" ∷ []

abbrev pub enforcements : List String
enforcements = "active" ∷ "disabled" ∷ "evaluate" ∷ []

abbrev pub targets : List String
targets = "default_branch" ∷ "other" ∷ []

abbrev pub repository_rules : Rules
repository_rules =
    ("visibility", enum_string visibilities)
    ∷ ("default_branch", token)
    ∷ ("merge_methods", merge_methods)
    ∷ ("delete_branch_on_merge", boolean)
    ∷ []

abbrev pub selected_rules : Rules
selected_rules =
    ("github_owned_allowed", boolean)
    ∷ ("verified_allowed", boolean)
    ∷ ("patterns_allowed", patterns)
    ∷ []

abbrev pub action_rules : Rules
action_rules =
    ("enabled", boolean)
    ∷ ("sha_pinning_required", boolean)
    ∷ ("can_approve_pull_request_reviews", boolean)
    ∷ ("allowed_actions", enum_string allowed_action_names)
    ∷ ("default_workflow_permissions", enum_string permissions)
    ∷ ("selected_actions", table_of selected_keys selected_rules)
    ∷ []

abbrev pub pull_request_rules : Rules
pull_request_rules =
    ("required", boolean)
    ∷ ("required_approving_review_count", integer 10)
    ∷ ("allowed_merge_methods", merge_methods)
    ∷ []

abbrev pub pull_request_keys : List String
pull_request_keys = "required" ∷ "required_approving_review_count" ∷ "allowed_merge_methods" ∷ []

abbrev pub required_keys : List String
required_keys = "strict_required_status_checks_policy" ∷ "checks" ∷ []

abbrev pub required_rules : Rules
required_rules = ("strict_required_status_checks_policy", boolean) ∷ ("checks", status_checks) ∷ []

abbrev pub ruleset_rules : Rules
ruleset_rules =
    ("name", rule_name)
    ∷ ("enforcement", enum_string enforcements)
    ∷ ("target", enum_string targets)
    ∷ ("bypass_actor_count", integer 1024)
    ∷ ("deletion", boolean)
    ∷ ("non_fast_forward", boolean)
    ∷ ("linear_history", boolean)
    ∷ ("do_not_enforce_on_create", boolean)
    ∷ ("pull_request", table_of pull_request_keys pull_request_rules)
    ∷ ("required_status_checks", table_of required_keys required_rules)
    ∷ []

abbrev pub security_rules : Rules
security_rules =
    ("dependabot_alerts", boolean)
    ∷ ("dependabot_security_updates", boolean)
    ∷ ("secret_scanning", boolean)
    ∷ ("secret_scanning_push_protection", boolean)
    ∷ ("private_vulnerability_reporting", boolean)
    ∷ ("contact", contact)
    ∷ []

abbrev pub root_keys : List String
root_keys =
    "schema_version" ∷ "observed_at" ∷ "repository" ∷ "actions" ∷ "ruleset" ∷ "security" ∷ []

abbrev pub section_rules : Rules
section_rules =
    ("repository", table_of repository_keys repository_rules)
    ∷ ("actions", table_of (direct_action_keys ++ "selected_actions" ∷ []) action_rules)
    ∷ (
      "ruleset",
      table_of (direct_ruleset_keys ++ "pull_request" ∷ "required_status_checks" ∷ [])
          ruleset_rules,
    )
    ∷ ("security", table_of security_keys security_rules)
    ∷ []

abbrev pub is_version_one : Json → Bool
is_version_one (int (pos n)) = n == 1
is_version_one _ = false

unfoldable pub validate_observation : Json → Checked Fields
unfolding validate_each
validate_observation value =
    exact_object value root_keys ("schema_version" ∷ "observed_at" ∷ []) >>= λ root.
    item_of "schema_version" root
    >>= (λ v. require (is_version_one v) bad_schema_version)
    >>= λ one.
        item_of "observed_at" root >>= timestamp >>= λ observed. validate_each section_rules root
