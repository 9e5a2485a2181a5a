-- ===== src/RepositoryTrust/Policy.antt =====
-- scripts/repository_trust.py: the approved policy and `validate_policy`.
use yocto_qemu_edu_lab.Common.{String, true, false, [], ◌∷◌, ok, ◌>>◌}
use yocto_qemu_edu_lab.Json.{Json, bool, int, str, arr, obj, pos, nil, Fields, end, field}
use yocto_qemu_edu_lab.RepositoryTrust.Values.{Checked, require, bad_policy}
use yocto_qemu_edu_lab.RepositoryTrust.Arrays.{
  StatusCheck, check_items, to_items, strict_json_equal, equal,
}

abbrev pub project : String
project = "yocto-qemu-edu-lab"

abbrev hosted : String → StatusCheck
hosted context = record { context = context; source = "github-actions" }

abbrev pub expected_checks : Json
expected_checks = arr (
    check_items (
      hosted "diagnostics-schema"
      ∷ hosted "licensing"
      ∷ hosted "repository"
      ∷ hosted "static"
      ∷ []))

abbrev pub approved_repository : Fields
approved_repository = field "visibility" (str "public") (
    field "default_branch" (str "main") (
      field "merge_methods" (arr (to_items ("squash" ∷ [])))
        (field "delete_branch_on_merge" (bool true) end)))

abbrev pub approved_actions : Fields
approved_actions = field "enabled" (bool true) (
    field "allowed_actions" (str "selected") (
      field "sha_pinning_required" (bool true) (
        field "default_workflow_permissions" (str "read") (
          field "can_approve_pull_request_reviews" (bool false) (
            field "selected_actions"
              (obj (
                field "github_owned_allowed" (bool true)
                  (field "verified_allowed" (bool false) (field "patterns_allowed" (arr nil) end))))
              end)))))

abbrev pub approved_ruleset : Fields
approved_ruleset = field "name" (str "Protect main") (
    field "enforcement" (str "active") (
      field "target" (str "default_branch") (
        field "bypass_actor_count" (int (pos 0)) (
          field "deletion" (bool true) (
            field "non_fast_forward" (bool true) (
              field "linear_history" (bool true) (
                field "do_not_enforce_on_create" (bool false) (
                  field "pull_request"
                    (obj (
                      field "required" (bool true) (
                        field "required_approving_review_count" (int (pos 0))
                          (field "allowed_merge_methods" (arr (to_items ("squash" ∷ []))) end))))
                    (field "required_status_checks"
                      (obj (
                        field "strict_required_status_checks_policy" (bool true)
                          (field "checks" expected_checks end)))
                      end)))))))))

abbrev pub approved_security : Fields
approved_security = field "dependabot_alerts" (bool true) (
    field "dependabot_security_updates" (bool true) (
      field "secret_scanning" (bool true) (
        field "secret_scanning_push_protection" (bool true) (
          field "private_vulnerability_reporting" (bool true)
            (field "contact" (str "@xsparc") end)))))

abbrev pub approved_policy : Fields
approved_policy = field "schema_version" (int (pos 1)) (
    field "project" (str project) (
      field "repository" (obj approved_repository) (
        field "actions" (obj approved_actions)
          (field "ruleset" (obj approved_ruleset) (field "security" (obj approved_security) end)))))

unfoldable pub validate_policy : Json → Checked Json
unfolding equal
validate_policy value =
    require (strict_json_equal value (obj approved_policy)) bad_policy >> ok value
