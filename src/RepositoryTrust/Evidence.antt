-- ===== src/RepositoryTrust/Evidence.antt =====
-- scripts/repository_trust.py: `validate_facts`, `validate_evidence` and `build_evidence`. The
-- shape of the JSON, which `validate_evidence` also bounds, is not part of it here.
use yocto_qemu_edu_lab.Common.{
  String, str_eq, member, Bool, true, false, ◌&&◌, ◌||◌, not, List, [], ◌∷◌, ok, err, ◌>>=◌, ◌>>◌,
}
use yocto_qemu_edu_lab.Json.{
  Json, null, int, pos, str, arr, obj, Items, nil, cons, Fields, end, field, items,
}
use yocto_qemu_edu_lab.Regex.{one, repeated, hex, fullmatch}
use yocto_qemu_edu_lab.RepositoryTrust.Values.{
  TrustError, type_error, Checked, require, bad_identity, bad_schema_version, bad_digest,
  bad_result, not_sorted, bad_checks, bad_check, not_derived, unobserved_facts, item_of,
  exact_object, or_null, boolean, integer, enum_string, token, timestamp,
}
use yocto_qemu_edu_lab.RepositoryTrust.Arrays.{
  merge_methods, patterns, status_checks, loosely, equal,
}
use yocto_qemu_edu_lab.RepositoryTrust.Policy.{project}
use yocto_qemu_edu_lab.RepositoryTrust.Facts.{
  Facts, empty_facts, repository_keys, action_keys, ruleset_keys, security_keys,
}
use yocto_qemu_edu_lab.RepositoryTrust.Observation.{
  Rules, rule_name, contact, visibilities, allowed_action_names, permissions, enforcements, targets,
  is_version_one,
}
use yocto_qemu_edu_lab.RepositoryTrust.Statuses.{
  Status, pass, fail, unavailable, check_statuses, aggregate,
}

-- validate the value of each key, which is there
unfoldable pub check_each : Rules → Fields → Checked Unit
check_each [] table = ok tt
check_each ((key, validate) ∷ rules) table =
    item_of key table >>= validate >>= λ valid. check_each rules table

-- `normalized != value`
abbrev pub only_sorted : (Json → Checked Json) → Json → Checked Json
only_sorted validate value = or_null validate value >>= λ normalized.
    require (loosely normalized value) not_sorted >> ok value

abbrev pub repository_fact_rules : Rules
repository_fact_rules =
    ("visibility", or_null (enum_string visibilities))
    ∷ ("default_branch", or_null token)
    ∷ ("merge_methods", only_sorted merge_methods)
    ∷ ("delete_branch_on_merge", or_null boolean)
    ∷ []

abbrev pub action_fact_rules : Rules
action_fact_rules =
    ("enabled", or_null boolean)
    ∷ ("sha_pinning_required", or_null boolean)
    ∷ ("can_approve_pull_request_reviews", or_null boolean)
    ∷ ("github_owned_allowed", or_null boolean)
    ∷ ("verified_allowed", or_null boolean)
    ∷ ("allowed_actions", or_null (enum_string allowed_action_names))
    ∷ ("default_workflow_permissions", or_null (enum_string permissions))
    ∷ ("patterns_allowed", only_sorted patterns)
    ∷ []

abbrev pub ruleset_fact_rules : Rules
ruleset_fact_rules =
    ("name", or_null rule_name)
    ∷ ("enforcement", or_null (enum_string enforcements))
    ∷ ("target", or_null (enum_string targets))
    ∷ ("bypass_actor_count", or_null (integer 1024))
    ∷ ("deletion", or_null boolean)
    ∷ ("non_fast_forward", or_null boolean)
    ∷ ("linear_history", or_null boolean)
    ∷ ("do_not_enforce_on_create", or_null boolean)
    ∷ ("pull_request_required", or_null boolean)
    ∷ ("strict_required_status_checks_policy", or_null boolean)
    ∷ ("required_approving_review_count", or_null (integer 10))
    ∷ ("allowed_merge_methods", only_sorted merge_methods)
    ∷ ("required_status_checks", only_sorted status_checks)
    ∷ []

abbrev pub security_fact_rules : Rules
security_fact_rules =
    ("dependabot_alerts", or_null boolean)
    ∷ ("dependabot_security_updates", or_null boolean)
    ∷ ("secret_scanning", or_null boolean)
    ∷ ("secret_scanning_push_protection", or_null boolean)
    ∷ ("private_vulnerability_reporting", or_null boolean)
    ∷ ("contact", or_null contact)
    ∷ []

-- a table with exactly these keys, whose values are valid
abbrev pub fact_table : List String → Rules → Json → Checked Fields
fact_table keys rules value =
    exact_object value keys keys >>= λ table. check_each rules table >>= λ valid. ok table

abbrev pub section_names : List String
section_names = "repository" ∷ "actions" ∷ "ruleset" ∷ "security" ∷ []

unfoldable pub validate_facts : Json → Checked Facts
unfolding check_each
validate_facts value = exact_object value section_names section_names >>= λ root.
    item_of "repository" root >>= fact_table repository_keys repository_fact_rules >>= λ repository.
    item_of "actions" root >>= fact_table action_keys action_fact_rules >>= λ actions.
    item_of "ruleset" root >>= fact_table ruleset_keys ruleset_fact_rules >>= λ rules.
    item_of "security" root >>= fact_table security_keys security_fact_rules >>= λ security.
    ok (record { repository = repository; actions = actions; rules = rules; security = security })

abbrev pub facts_value : Facts → Json
facts_value facts = obj (
    field "repository" (obj facts.repository) (
      field "actions" (obj facts.actions)
        (field "ruleset" (obj facts.rules) (field "security" (obj facts.security) end))))

abbrev pub status_text : Status → String
status_text pass = "pass"
status_text fail = "fail"
status_text unavailable = "unavailable"

abbrev pub check_values : List (String × Status) → Items
check_values [] = nil
check_values ((i, s) ∷ cs) =
    cons (obj (field "id" (str i) (field "status" (str (status_text s)) end))) (check_values cs)

abbrev pub kind : String
kind = "qemu-edu-repository-trust-evidence"

abbrev pub evidence_keys : List String
evidence_keys =
    "kind" ∷ "schema_version" ∷ "project" ∷ "policy_sha256" ∷ "observed_at" ∷ "result" ∷ "facts"
    ∷ "checks" ∷ []

abbrev pub is_text : String → Json → Bool
is_text t (str s) = str_eq s t
is_text t _ = false

-- `value not in {"pass", "fail", "unavailable"}`
abbrev pub status_value : TrustError → Json → Checked Unit
status_value e (str s) = require (member s ("pass" ∷ "fail" ∷ "unavailable" ∷ [])) e
status_value e (arr vs) = err type_error
status_value e (obj fs) = err type_error
status_value e _ = err e

abbrev pub is_digest : Json → Bool
is_digest (str s) = fullmatch (repeated 64 (one hex)) s
is_digest _ = false

abbrev pub is_null : Json → Bool
is_null null = true
is_null _ = false

-- the items in order, against the ids of the expected checks
abbrev pub each_check : List (String × Status) → List Json → Checked Unit
each_check ((i, s) ∷ cs) (v ∷ vs) =
    exact_object v ("id" ∷ "status" ∷ []) ("id" ∷ "status" ∷ []) >>= λ check.
    item_of "id" check >>= λ found. item_of "status" check >>= λ status.
    require (is_text i found) bad_check >>= λ same.
    status_value bad_check status >>= λ valid. each_check cs vs
each_check [] [] = ok tt
each_check _ _ = err bad_checks

abbrev pub check_list : List (String × Status) → Json → Checked Unit
check_list expected (arr vs) = each_check expected (items vs)
check_list expected _ = err bad_checks

abbrev pub identity_check : Fields → Checked Unit
identity_check root = item_of "kind" root >>= λ found. item_of "project" root >>= λ named.
    item_of "schema_version" root >>= λ version. item_of "policy_sha256" root >>= λ digest.
    require (is_text kind found && is_text project named) bad_identity >>= λ same.
    require (is_version_one version) bad_schema_version >>= λ known.
    require (is_digest digest) bad_digest

-- what the result and the checks are compared with
abbrev pub derived_check : Facts → Json → Json → Json → Checked Unit
derived_check facts result checks observed =
    require
      (loosely checks (arr (check_values (check_statuses facts)))
        && is_text (status_text (aggregate (check_statuses facts))) result)
      not_derived
    >>= λ derived.
        require (not (is_null observed) || loosely (facts_value facts) (facts_value empty_facts))
          unobserved_facts

unfoldable pub validate_evidence : Json → Checked Fields
unfolding fullmatch equal
validate_evidence value = exact_object value evidence_keys evidence_keys >>= λ root.
    identity_check root >>= λ identity. item_of "observed_at" root >>= λ observed.
    or_null timestamp observed >>= λ time. item_of "result" root >>= λ result.
    status_value bad_result result >>= λ known. item_of "facts" root >>= validate_facts >>= λ facts.
    item_of "checks" root >>= λ checks. check_list (check_statuses facts) checks >>= λ listed.
    derived_check facts result checks observed >>= λ derived. ok root

unfoldable pub build_evidence : String → Json → Facts → Checked Json
unfolding validate_evidence
build_evidence digest observed facts =
    let checks = check_statuses facts in
    let evidence = obj (
      field "kind" (str kind) (
        field "schema_version" (int (pos 1)) (
          field "project" (str project) (
            field "policy_sha256" (str digest) (
              field "observed_at" observed (
                field "result" (str (status_text (aggregate checks))) (
                  field "facts" (facts_value facts)
                    (field "checks" (arr (check_values checks)) end)))))))) in
    validate_evidence evidence >>= λ valid. ok evidence
