-- ===== src/RepositoryTrust/Accepted.antt =====
-- scripts/repository_trust.py: accepted evidence whose result is a pass.
use yocto_qemu_edu_lab.Common.{
  String, ◌≡◌, refl, sym, ap, subst, ◌∙◌, Bool, true, false, ◌&&◌, some, and-true, Option-cases,
  inl, inr, ok, err, ◌>>=◌, >>=-eq-ok,
}
use yocto_qemu_edu_lab.Json.{Json, str, arr, Fields, get}
use yocto_qemu_edu_lab.RepositoryTrust.Values.{
  TrustError, Checked, require, item_of, exact_object, or_null, timestamp, bad_result, not_derived,
}
use yocto_qemu_edu_lab.RepositoryTrust.Arrays.{loosely}
use yocto_qemu_edu_lab.RepositoryTrust.Facts.{Facts}
use yocto_qemu_edu_lab.RepositoryTrust.Statuses.{
  Status, pass, fail, unavailable, check_statuses, aggregate,
}
use yocto_qemu_edu_lab.RepositoryTrust.Evidence.{
  validate_facts, validate_evidence, evidence_keys, identity_check, status_value, check_list,
  derived_check, status_text, is_text, check_values,
}
use yocto_qemu_edu_lab.RepositoryTrust.Approved.{agree, approved, aggregate-approved}

require-ok : (b : Bool) (e : TrustError) {u : Unit} → require b e ≡ ok u → b ≡ true
require-ok true e h = refl
require-ok false e h = cc

item_of-get :
    (key : String) (table : Fields) {v : Json} → item_of key table ≡ ok v → get key table ≡ some v
item_of-get key table h = elim (Option-cases (get key table)) [
  | inl absent ↦ cc (rw (absent, item_of) at h)
  | inr (w, present) ↦ cc (present, rw (present, item_of) at h)
]

pass-text : (s : Status) → is_text (status_text s) (str "pass") ≡ true → s ≡ pass
pass-text pass h = refl
pass-text fail h = cc
pass-text unavailable h = cc

some-injective : {u v : Json} → some u ≡ some v → u ≡ v
some-injective h = cc

abbrev table_or : Fields → Checked Fields → Fields
table_or default (ok table) = table
table_or default (err e) = default

-- When evidence is accepted and its result is a pass, its facts are valid, and every fact is the
-- one that the approved policy shows.
pub validate_evidence-approved :
    (value : Json) (root : Fields)
    → validate_evidence value ≡ ok root
    → get "result" root ≡ some (str "pass")
    → (v : Json) × (facts : Facts) × (get "facts" root ≡ some v)
      × (validate_facts v ≡ ok facts)
      × (agree facts approved ≡ true)
unfolding validate_evidence
validate_evidence-approved value root h passed =
    let (table, _, h1) = >>=-eq-ok (exact_object value evidence_keys evidence_keys) _ h in
    let (_, _, h2) = >>=-eq-ok (identity_check table) _ h1 in
    let (observed, _, h3) = >>=-eq-ok (item_of "observed_at" table) _ h2 in
    let (_, _, h4) = >>=-eq-ok (or_null timestamp observed) _ h3 in
    let (result, result_read, h5) = >>=-eq-ok (item_of "result" table) _ h4 in
    let (_, _, h6) = >>=-eq-ok (status_value bad_result result) _ h5 in
    let (facts, facts_read, h7) = >>=-eq-ok (item_of "facts" table >>= validate_facts) _ h6 in
    let (checks, _, h8) = >>=-eq-ok (item_of "checks" table) _ h7 in
    let (_, _, h9) = >>=-eq-ok (check_list (check_statuses facts) checks) _ h8 in
    let (_, derived, made) = >>=-eq-ok (derived_check facts result checks observed) _ h9 in
    let (v, v_read, valid) = >>=-eq-ok (item_of "facts" table) validate_facts facts_read in
    let same : table ≡ root = ap (table_or root) made in
    let same_checks = loosely checks (arr (check_values (check_statuses facts))) in
    let status = aggregate (check_statuses facts) in
    let (_, first, _) =
      >>=-eq-ok (require (same_checks && is_text (status_text status) result) not_derived) _
        derived in
    let (_, says) = and-true same_checks _ (require-ok _ _ first) in
    let is_pass : result ≡ str "pass" =
      some-injective
        (sym (item_of-get "result" table result_read) ∙ ap (get "result") same ∙ passed) in
    (
      v,
      facts,
      sym (ap (get "facts") same) ∙ item_of-get "facts" table v_read,
      valid,
      aggregate-approved facts
          (pass-text status (subst (λ r. is_text (status_text status) r ≡ true) is_pass says)),
    )
