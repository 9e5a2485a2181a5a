-- ===== src/RuntimeEvidence/Passed.antt =====
-- scripts/runtime_evidence.py: the evidence that `validate_evidence` accepts as a pass.
use yocto_qemu_edu_lab.Common.{
  ◌≤◌, String, str_eq, eq_iff, member, ◌≡◌, sym, ap, subst, ◌∙◌, inl, inr, Bool, some, List, [],
  ◌∷◌, length, All, arith, ok, ◌>>=◌, >>=-eq-ok, ensure, result_or, Bool-cases,
}
use yocto_qemu_edu_lab.Json.{Json, str, obj, Fields, get}
use yocto_qemu_edu_lab.RuntimeEvidence.Suite.{count, oeqa_statuses}
use yocto_qemu_edu_lab.RuntimeEvidence.Values.{
  item_at, object_of, require_exact_keys, string_at, text_is, duration_check, bad_status,
  other_test,
}
use yocto_qemu_edu_lab.RuntimeEvidence.Validate.{validate_test, test_statuses}
use yocto_qemu_edu_lab.RuntimeEvidence.Reads.{object_of-obj, string_at-get, text_is-get}

count-le : (status : String) (ss : List String) → count status ss ≤ length ss
unfolding count
count-le status [] = omega arith
count-le status (s ∷ ss) = ground (arith, count-le status ss)

-- Where the count of a status is the length of the list, every element is that status.
pub count-all :
    (status : String) (ss : List String) → count status ss ≡ length ss → All (λ s. s ≡ status) ss
unfolding count
count-all status [] h = tt
count-all status (s ∷ ss) h = elim (Bool-cases (str_eq s status)) [
  | inl same ↦ ((eq_iff s status).0 same, count-all status ss (ground (arith, count-le status ss)))
  | inr other ↦ absurd (ground (arith, count-le status ss))
]

-- The tests that are recorded, each as an object with its id and a status.
abbrev pub Recorded : (String → Type 0) → List String → List Json → Type 0
Recorded P [] [] = Unit
Recorded P (i ∷ ids) (value ∷ values) =
    ((test : Fields) × (status : String) × (value ≡ obj test)
      × (get "id" test ≡ some (str i))
      × (get "status" test ≡ some (str status))
      × P status)
    × Recorded P ids values
Recorded P _ _ = ⊥

module _ (is_finite_positive : String → Bool) where
  validate_test-status :
      (i : String) (value : Json) {status : String}
      → validate_test is_finite_positive i value ≡ ok status
      → (test : Fields) × (value ≡ obj test)
        × (get "id" test ≡ some (str i))
        × (get "status" test ≡ some (str status))
  unfolding validate_test
  validate_test-status i value {status = wanted} h =
      let (test, opened, h1) = >>=-eq-ok (object_of value) _ h in
      let (_, exact, h2) =
        >>=-eq-ok (require_exact_keys test ("id" ∷ "status" ∷ "duration_seconds" ∷ [])) _ h1 in
      let (_, named, h3) = >>=-eq-ok (text_is "id" i other_test test) _ h2 in
      let (status, read, h4) = >>=-eq-ok (string_at "status" test) _ h3 in
      let (_, known, h5) = >>=-eq-ok (ensure (member status oeqa_statuses) bad_status) _ h4 in
      let (_, timed, h6) =
        >>=-eq-ok (item_at "duration_seconds" test >>= duration_check is_finite_positive) _ h5 in
      (
        test,
        object_of-obj value opened,
        text_is-get "id" i other_test test named,
        string_at-get "status" test read ∙ ap (λ s. some (str s)) (ap (result_or wanted) h6),
      )

  pub test_statuses-Recorded :
      (P : String → Type 0) (ids : List String) (values : List Json) {statuses : List String}
      → length values ≡ length ids
      → test_statuses is_finite_positive ids values ≡ ok statuses
      → All P statuses
      → Recorded P ids values
  test_statuses-Recorded P [] [] many h all = tt
  test_statuses-Recorded P [] (v ∷ vs) many h all = absurd (omega arith)
  test_statuses-Recorded P (i ∷ ids) [] many h all = absurd (omega arith)
  test_statuses-Recorded P (i ∷ ids) (v ∷ vs) {statuses} many h all =
      let (status, one, h1) = >>=-eq-ok (validate_test is_finite_positive i v) _ h in
      let (rest, later, h2) = >>=-eq-ok (test_statuses is_finite_positive ids vs) _ h1 in
      let (test, opened, named, read) = validate_test-status i v one in
      let (mine, others) = subst (All P) (ap (result_or statuses) (sym h2)) all in
      (
        (test, status, opened, named, read, mine),
        test_statuses-Recorded P ids vs (omega arith) later others,
      )
