-- ===== src/RepositoryTrust/Facts.antt =====
-- scripts/repository_trust.py: `empty_facts` and `facts_from_observation`. The facts are four
-- tables, and a table of Python is the list of its pairs; `rules` is the table "ruleset".
use yocto_qemu_edu_lab.Common.{String, str_eq, none, some, List, [], ◌∷◌, ◌++◌, if◌then◌else◌}
use yocto_qemu_edu_lab.Json.{Json, null, obj, Fields, end, field, get}

pub record Facts : Type 0 where
  pub repository : Fields
  pub actions : Fields
  pub rules : Fields
  pub security : Fields

-- `{key: None, ...}`
abbrev pub unknown : List String → Fields
unknown [] = end
unknown (k ∷ ks) = field k null (unknown ks)

abbrev pub repository_keys : List String
repository_keys = "visibility" ∷ "default_branch" ∷ "merge_methods" ∷ "delete_branch_on_merge" ∷ []

abbrev pub direct_action_keys : List String
direct_action_keys =
    "enabled" ∷ "allowed_actions" ∷ "sha_pinning_required" ∷ "default_workflow_permissions"
    ∷ "can_approve_pull_request_reviews" ∷ []

abbrev pub selected_keys : List String
selected_keys = "github_owned_allowed" ∷ "verified_allowed" ∷ "patterns_allowed" ∷ []

abbrev pub direct_ruleset_keys : List String
direct_ruleset_keys =
    "name" ∷ "enforcement" ∷ "target" ∷ "bypass_actor_count" ∷ "deletion" ∷ "non_fast_forward"
    ∷ "linear_history" ∷ "do_not_enforce_on_create" ∷ []

abbrev pub nested_ruleset_keys : List String
nested_ruleset_keys =
    "pull_request_required" ∷ "required_approving_review_count" ∷ "allowed_merge_methods"
    ∷ "strict_required_status_checks_policy" ∷ "required_status_checks" ∷ []

abbrev pub security_keys : List String
security_keys =
    "dependabot_alerts" ∷ "dependabot_security_updates" ∷ "secret_scanning"
    ∷ "secret_scanning_push_protection" ∷ "private_vulnerability_reporting" ∷ "contact" ∷ []

abbrev pub action_keys : List String
action_keys = direct_action_keys ++ selected_keys

abbrev pub ruleset_keys : List String
ruleset_keys = direct_ruleset_keys ++ nested_ruleset_keys

abbrev pub empty_facts : Facts
empty_facts = record {
  repository = unknown repository_keys;
  actions = unknown action_keys;
  rules = unknown ruleset_keys;
  security = unknown security_keys;
}

-- `table[key] = value`; a new key comes last
unfoldable pub put : String → Json → Fields → Fields
put key value end = field key value end
put key value (field k v fs) =
    let rest = put key value fs in if str_eq k key then field k value fs else field k v rest

-- `table.get(key, {})`, of a table whose value is a table where it is there
unfoldable pub table_at : String → Fields → Fields
table_at key table = elim (get key table) [ some (obj fields) ↦ fields | _ ↦ end ]

-- every item of the first table, into the second
abbrev pub put_all : Fields → Fields → Fields
put_all end facts = facts
put_all (field k v fs) facts = put_all fs (put k v facts)

-- `if key in table: facts[target] = table[key]`
abbrev pub copy : String → String → Fields → Fields → Fields
copy key target table facts = elim (get key table) [
  | none ↦ facts
  | some value ↦ put target value facts
]

abbrev pub copy_each : List String → Fields → Fields → Fields
copy_each [] table facts = facts
copy_each (k ∷ ks) table facts = copy_each ks table (copy k k table facts)

unfoldable pub action_facts : Fields → Fields
unfolding put table_at
action_facts actions =
    put_all (table_at "selected_actions" actions)
      (copy_each direct_action_keys actions (unknown action_keys))

unfoldable pub ruleset_facts : Fields → Fields
unfolding put table_at
ruleset_facts rules =
    let pull_request = table_at "pull_request" rules in
    let required = table_at "required_status_checks" rules in
    let direct = copy_each direct_ruleset_keys rules (unknown ruleset_keys) in
    let one = copy "required" "pull_request_required" pull_request direct in
    let two =
      copy "required_approving_review_count" "required_approving_review_count" pull_request one in
    let three = copy "allowed_merge_methods" "allowed_merge_methods" pull_request two in
    let four =
      copy "strict_required_status_checks_policy" "strict_required_status_checks_policy" required
        three in
    copy "checks" "required_status_checks" required four

unfoldable pub facts_from_observation : Fields → Facts
unfolding action_facts ruleset_facts put table_at
facts_from_observation observation = record {
  repository = put_all (table_at "repository" observation) (unknown repository_keys);
  actions = action_facts (table_at "actions" observation);
  rules = ruleset_facts (table_at "ruleset" observation);
  security = put_all (table_at "security" observation) (unknown security_keys);
}
