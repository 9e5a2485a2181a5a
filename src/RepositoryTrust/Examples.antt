-- ===== src/RepositoryTrust/Examples.antt =====
-- Tests of the model of scripts/repository_trust.py on the approved policy, and its theorems there.
use yocto_qemu_edu_lab.Common.{String, ◌≡◌, refl, true, some, ok}
use yocto_qemu_edu_lab.Json.{Json, int, str, arr, obj, pos, Fields, end, field, get}
use yocto_qemu_edu_lab.Regex.{fullmatch}
use yocto_qemu_edu_lab.RepositoryTrust.Values.{
  Checked, exact_object, boolean, integer, enum_string, token, timestamp,
}
use yocto_qemu_edu_lab.RepositoryTrust.Arrays.{
  merge_methods, patterns, status_checks, status_check, sorted, equal,
}
use yocto_qemu_edu_lab.RepositoryTrust.Policy.{
  project, approved_policy, approved_repository, validate_policy,
}
use yocto_qemu_edu_lab.RepositoryTrust.Facts.{Facts, facts_from_observation, empty_facts}
use yocto_qemu_edu_lab.RepositoryTrust.Observation.{validate_observation, rule_name, contact}
use yocto_qemu_edu_lab.RepositoryTrust.Statuses.{
  pass, unavailable, check_statuses, aggregate, scalar_status, combined_status, each_status,
}
use yocto_qemu_edu_lab.RepositoryTrust.Evidence.{
  validate_facts, validate_evidence, build_evidence, kind, facts_value, check_values,
}
use yocto_qemu_edu_lab.RepositoryTrust.Approved.{agree, approved, aggregate-approved}
use yocto_qemu_edu_lab.RepositoryTrust.Accepted.{validate_evidence-approved}

-- A proof that opens this opens all that `validate_evidence` calls.
run : Json → Checked Fields
unfolding validate_evidence validate_facts facts_from_observation check_statuses aggregate
    scalar_status combined_status each_status exact_object boolean integer enum_string token
    timestamp merge_methods patterns status_checks status_check sorted equal rule_name contact
    fullmatch get
run value = validate_evidence value

abbrev digest : String
digest = "0123456789abcdef0123456789abcdef0123456789abcdef0123456789abcdef"

abbrev evidence : Fields
evidence = field "kind" (str kind) (
    field "schema_version" (int (pos 1)) (
      field "project" (str project) (
        field "policy_sha256" (str digest) (
          field "observed_at" (str "2026-02-28T12:00:00Z") (
            field "result" (str "pass") (
              field "facts" (facts_value approved)
                (field "checks" (arr (check_values (check_statuses approved))) end)))))))

approved_passes : aggregate (check_statuses approved) ≡ pass
unfolding run
approved_passes = refl

nothing_observed : aggregate (check_statuses empty_facts) ≡ unavailable
unfolding run
nothing_observed = refl

approved_is_approved : validate_policy (obj approved_policy) ≡ ok (obj approved_policy)
unfolding run validate_policy
approved_is_approved = refl

built : build_evidence digest (str "2026-02-28T12:00:00Z") approved ≡ ok (obj evidence)
unfolding run build_evidence
built = refl

accepted : validate_evidence (obj evidence) ≡ ok evidence
unfolding run
accepted = refl

says_pass : get "result" evidence ≡ some (str "pass")
unfolding get
says_pass = refl

-- The methods are sorted, and a table that is absent is no fact.
observed :
    validate_observation (
      obj (
        field "schema_version" (int (pos 1)) (
          field "observed_at"
            (str "2026-02-28T12:00:00Z")
            (field "repository" (obj approved_repository) end))))
    ≡ ok (
        field "schema_version" (int (pos 1)) (
          field "observed_at"
            (str "2026-02-28T12:00:00Z")
            (field "repository" (obj approved_repository) end)))
unfolding run validate_observation
observed = refl

aggregate-approved_example : agree approved approved ≡ true
aggregate-approved_example = aggregate-approved approved approved_passes

validate_evidence-approved_example :
    (v : Json) × (facts : Facts) × (get "facts" evidence ≡ some v)
    × (validate_facts v ≡ ok facts)
    × (agree facts approved ≡ true)
validate_evidence-approved_example =
    validate_evidence-approved (obj evidence) evidence accepted says_pass
