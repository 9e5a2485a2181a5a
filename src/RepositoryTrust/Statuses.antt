-- ===== src/RepositoryTrust/Statuses.antt =====
-- scripts/repository_trust.py: `check_statuses`, whose list is in the order of CHECK_IDS, and
-- `aggregate`.
use yocto_qemu_edu_lab.Common.{
  String, str_eq, Bool, true, false, ◌&&◌, not, none, some, List, [], ◌∷◌, ◌++◌, if◌then◌else◌, all,
  any,
}
use yocto_qemu_edu_lab.Json.{Json, null, bool, int, str, arr, obj, pos, nil, Fields, items, get}
use yocto_qemu_edu_lab.RepositoryTrust.Arrays.{loosely, to_items}
use yocto_qemu_edu_lab.RepositoryTrust.Policy.{expected_checks}
use yocto_qemu_edu_lab.RepositoryTrust.Facts.{Facts}

pub data Status : Type 0 where
  pass fail unavailable : Status

abbrev pub is_null : Json → Bool
is_null null = true
is_null _ = false

-- `table[key]` of a table that holds all its keys
abbrev pub value_of : String → Fields → Json
value_of key table = elim (get key table) [ none ↦ null | some value ↦ value ]

unfoldable pub scalar_status : Json → Json → Status
scalar_status value expected =
    if is_null value then unavailable else if loosely value expected then pass else fail

unfoldable pub combined_status : List (Json × Json) → Status
combined_status expectations =
    if any (λ p. not (is_null p.0) && not (loosely p.0 p.1)) expectations
    then fail
    else if any (λ p. is_null p.0) expectations
    then unavailable
    else pass

-- `all(item[key] ... for item in checks)`, of checks that are tables
abbrev pub item_text : String → Json → String
item_text key (obj fields) = elim (get key fields) [ some (str s) ↦ s | _ ↦ "" ]
item_text key _ = ""

unfoldable pub each_status : (Json → Bool) → Json → Status
each_status test (arr vs) = if all test (items vs) then pass else fail
each_status test null = unavailable
each_status test _ = fail

abbrev pub one : String → Json → Fields → Status
one key expected table = scalar_status (value_of key table) expected

abbrev pub repository_statuses : Fields → List (String × Status)
repository_statuses t =
    ("repository.public", one "visibility" (str "public") t)
    ∷ ("repository.default_branch", one "default_branch" (str "main") t)
    ∷ ("repository.squash_only", one "merge_methods" (arr (to_items ("squash" ∷ []))) t)
    ∷ ("repository.delete_branch", one "delete_branch_on_merge" (bool true) t)
    ∷ []

abbrev pub action_statuses : Fields → List (String × Status)
action_statuses t =
    ("actions.enabled", one "enabled" (bool true) t)
    ∷ ("actions.selected", one "allowed_actions" (str "selected") t)
    ∷ ("actions.sha_pinning", one "sha_pinning_required" (bool true) t)
    ∷ ("actions.default_permissions", one "default_workflow_permissions" (str "read") t)
    ∷ ("actions.pr_approval_permission", one "can_approve_pull_request_reviews" (bool false) t)
    ∷ (
      "actions.github_owned_only",
      combined_status (
          (value_of "github_owned_allowed" t, bool true)
          ∷ (value_of "verified_allowed" t, bool false)
          ∷ (value_of "patterns_allowed" t, arr nil)
          ∷ []),
    )
    ∷ []

abbrev pub ruleset_statuses : Fields → List (String × Status)
ruleset_statuses t =
    let checks = value_of "required_status_checks" t in
    ("ruleset.active", one "enforcement" (str "active") t)
    ∷ ("ruleset.name", one "name" (str "Protect main") t)
    ∷ ("ruleset.default_branch", one "target" (str "default_branch") t)
    ∷ ("ruleset.no_bypass", one "bypass_actor_count" (int (pos 0)) t)
    ∷ ("ruleset.deletion", one "deletion" (bool true) t)
    ∷ ("ruleset.non_fast_forward", one "non_fast_forward" (bool true) t)
    ∷ ("ruleset.linear_history", one "linear_history" (bool true) t)
    ∷ ("ruleset.enforce_on_create", one "do_not_enforce_on_create" (bool false) t)
    ∷ (
      "ruleset.pull_request",
      combined_status (
          (value_of "pull_request_required" t, bool true)
          ∷ (value_of "required_approving_review_count" t, int (pos 0))
          ∷ []),
    )
    ∷ ("ruleset.squash_only", one "allowed_merge_methods" (arr (to_items ("squash" ∷ []))) t)
    ∷ ("ruleset.strict_checks", one "strict_required_status_checks_policy" (bool true) t)
    ∷ ("ruleset.exact_checks", scalar_status checks expected_checks)
    ∷ (
      "ruleset.check_source",
      each_status (λ v. str_eq (item_text "source" v) "github-actions") checks,
    )
    ∷ (
      "ruleset.metadata_advisory",
      each_status (λ v. not (str_eq (item_text "context" v) "yocto-metadata")) checks,
    )
    ∷ []

abbrev pub security_statuses : Fields → List (String × Status)
security_statuses t =
    ("security.dependabot_alerts", one "dependabot_alerts" (bool true) t)
    ∷ ("security.dependabot_updates", one "dependabot_security_updates" (bool true) t)
    ∷ ("security.secret_scanning", one "secret_scanning" (bool true) t)
    ∷ ("security.push_protection", one "secret_scanning_push_protection" (bool true) t)
    ∷ ("security.private_reporting", one "private_vulnerability_reporting" (bool true) t)
    ∷ ("security.contact", one "contact" (str "@xsparc") t)
    ∷ []

unfoldable pub check_statuses : Facts → List (String × Status)
check_statuses facts =
    repository_statuses facts.repository
    ++ action_statuses facts.actions
    ++ ruleset_statuses facts.rules
    ++ security_statuses facts.security

abbrev pub is_fail : Status → Bool
is_fail fail = true
is_fail _ = false

abbrev pub is_unavailable : Status → Bool
is_unavailable unavailable = true
is_unavailable _ = false

unfoldable pub aggregate : List (String × Status) → Status
aggregate checks =
    if any (λ c. is_fail c.1) checks
    then fail
    else if any (λ c. is_unavailable c.1) checks
    then unavailable
    else pass
