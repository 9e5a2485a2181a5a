-- ===== src/RuntimeEvidence/Counts.antt =====
-- scripts/runtime_evidence.py: the counts of the summary.
use yocto_qemu_edu_lab.Common.{
  ℕ, suc, ◌+◌, String, str_eq, eq_iff, member, ◌≡◌, refl, sym, ap, subst, ◌∙◌, inl, inr, Bool, true,
  false, ◌&&◌, not, List, [], ◌∷◌, length, All, arith, if◌then◌else◌, ok, ◌>>=◌, >>=-eq-ok, ensure,
  ensure-true, result_or, Bool-cases, and-true,
}
use yocto_qemu_edu_lab.Json.{Json, Fields, items}
use yocto_qemu_edu_lab.RuntimeEvidence.Suite.{count, oeqa_statuses}
use yocto_qemu_edu_lab.RuntimeEvidence.Values.{
  item_at, object_of, require_exact_keys, string_at, text_is, duration_check, other_test,
  bad_status,
}
use yocto_qemu_edu_lab.RuntimeEvidence.Validate.{validate_test, test_statuses, validate_tests}
use yocto_qemu_edu_lab.RuntimeEvidence.Reads.{not-true}
use yocto_qemu_edu_lab.RuntimeEvidence.Parts.{validate_tests-arr}

-- the sum of the counts of some statuses
abbrev pub sum_of_counts : List String → List String → ℕ
sum_of_counts [] statuses = 0
sum_of_counts (status ∷ names) statuses = count status statuses + sum_of_counts names statuses

-- how often a text is listed
abbrev times : String → List String → ℕ
times s [] = 0
times s (n ∷ names) = let rest = times s names in if str_eq s n then suc rest else rest

sum_of_counts-empty : (names : List String) → sum_of_counts names [] ≡ 0
unfolding count
sum_of_counts-empty [] = refl
sum_of_counts-empty (n ∷ names) = omega (arith, sum_of_counts-empty names)

sum_of_counts-next :
    (names : List String) (s : String) (statuses : List String)
    → sum_of_counts names (s ∷ statuses) ≡ times s names + sum_of_counts names statuses
unfolding count
sum_of_counts-next [] s statuses = refl
sum_of_counts-next (n ∷ names) s statuses = ground (arith, sum_of_counts-next names s statuses)

abbrev is_distinct : List String → Bool
is_distinct [] = true
is_distinct (n ∷ names) = not (member n names) && is_distinct names

times_absent : (s : String) (names : List String) → member s names ≡ false → times s names ≡ 0
times_absent s [] h = refl
times_absent s (n ∷ names) h = ground (arith, times_absent s names)

times_once :
    (s : String) (names : List String)
    → is_distinct names ≡ true
    → member s names ≡ true
    → times s names ≡ 1
times_once s [] distinct h = cc
times_once s (n ∷ names) distinct h =
    let (fresh, others) = and-true (not (member n names)) (is_distinct names) distinct in
    elim (Bool-cases (str_eq s n)) [
      | inl same ↦
          let equal = (eq_iff s n).0 same in
          rw same (
            ap suc (
              times_absent s names (
                subst (λ t. member t names ≡ false) (sym equal) (not-true (member n names) fresh))))
      | inr other ↦ rw other (times_once s names others (rw other at h))
    ]

add_one : (total n sum many : ℕ) → total ≡ n + sum → n ≡ 1 → sum ≡ many → total ≡ suc many
add_one total n sum many h k l = omega arith

sum_of_counts-length :
    (statuses : List String)
    → All (λ s. member s oeqa_statuses ≡ true) statuses
    → sum_of_counts oeqa_statuses statuses ≡ length statuses
sum_of_counts-length [] known = sum_of_counts-empty oeqa_statuses
sum_of_counts-length (s ∷ statuses) (one, known) =
    let first = sum_of_counts-next oeqa_statuses s statuses in
    let once = times_once s oeqa_statuses refl one in
    let rest = sum_of_counts-length statuses known in
    add_one (sum_of_counts oeqa_statuses (s ∷ statuses)) (times s oeqa_statuses)
      (sum_of_counts oeqa_statuses statuses) (length statuses) first once rest

module _ (is_finite_positive : String → Bool) where
  validate_test_known :
      (i : String) (value : Json) {status : String}
      → validate_test is_finite_positive i value ≡ ok status
      → member status oeqa_statuses ≡ true
  unfolding validate_test
  validate_test_known i value {status = wanted} h =
      let (test, _, h1) = >>=-eq-ok (object_of value) _ h in
      let (_, _, h2) =
        >>=-eq-ok (require_exact_keys test ("id" ∷ "status" ∷ "duration_seconds" ∷ [])) _ h1 in
      let (_, _, h3) = >>=-eq-ok (text_is "id" i other_test test) _ h2 in
      let (status, _, h4) = >>=-eq-ok (string_at "status" test) _ h3 in
      let (_, known, h5) = >>=-eq-ok (ensure (member status oeqa_statuses) bad_status) _ h4 in
      let (_, _, h6) =
        >>=-eq-ok (item_at "duration_seconds" test >>= duration_check is_finite_positive) _ h5 in
      subst (λ s. member s oeqa_statuses ≡ true) (ap (result_or wanted) h6)
        (ensure-true (member status oeqa_statuses) bad_status known)

  test_statuses_known :
      (ids : List String) (values : List Json) {statuses : List String}
      → length values ≡ length ids
      → test_statuses is_finite_positive ids values ≡ ok statuses
      → All (λ s. member s oeqa_statuses ≡ true) statuses × (length statuses ≡ length ids)
  test_statuses_known [] [] {statuses} many h =
      subst (λ ss. All (λ s. member s oeqa_statuses ≡ true) ss × (length ss ≡ 0))
        (ap (result_or statuses) h) (tt, refl)
  test_statuses_known [] (v ∷ vs) many h = absurd (omega arith)
  test_statuses_known (i ∷ ids) [] many h = absurd (omega arith)
  test_statuses_known (i ∷ ids) (v ∷ vs) {statuses} many h =
      let (status, one, h1) = >>=-eq-ok (validate_test is_finite_positive i v) _ h in
      let (rest, later, h2) = >>=-eq-ok (test_statuses is_finite_positive ids vs) _ h1 in
      let (known, counted) = test_statuses_known ids vs (omega arith) later in
      subst (λ ss. All (λ s. member s oeqa_statuses ≡ true) ss × (length ss ≡ suc (length ids)))
        (ap (result_or statuses) h2) ((validate_test_known i v one, known), ap suc counted)

  -- The counts of the six statuses, over the statuses that `validate_tests` returns, add up to the
  -- number of the tests of the suite.
  pub validate_tests-sum_of_counts :
      (ids : List String) (evidence : Fields) (statuses : List String)
      → validate_tests is_finite_positive ids evidence ≡ ok statuses
      → sum_of_counts oeqa_statuses statuses ≡ length ids
  validate_tests-sum_of_counts ids evidence statuses h =
      let (values, _, many, run) = validate_tests-arr is_finite_positive ids evidence h in
      let (known, counted) = test_statuses_known ids (items values) many run in
      sum_of_counts-length statuses known ∙ counted
