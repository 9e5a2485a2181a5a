-- ===== src/RuntimeEvidence/Parts.antt =====
-- scripts/runtime_evidence.py: what `validate_evidence` has found once its parts have accepted.
use yocto_qemu_edu_lab.Common.{
  ℕ, String, str_eq, eq_iff, ◌≡◌, refl, sym, ap, ◌∙◌, inl, inr, Bool, ◌&&◌, Option, none, some,
  List, [], ◌∷◌, ◌++◌, map, length, leb, ◌==◌, ==_iff, ok, ◌>>=◌, >>=-eq-ok, ensure, ensure-true,
  in_turn, result_or, and-true, Option-cases, Bool-cases,
}
use yocto_qemu_edu_lab.Json.{
  pos, negsuc, Json, null, bool, int, float, str, arr, obj, Items, Fields, get, items,
}
use yocto_qemu_edu_lab.Regex.{fullmatch}
use yocto_qemu_edu_lab.RuntimeEvidence.Suite.{supported_tests, count, sha1_pattern}
use yocto_qemu_edu_lab.RuntimeEvidence.Values.{
  item_at, object_at, require_string, string_at, boolean_at, text_is, bad_revision, other_revision,
  bad_tests, bad_exit_code, other_project,
}
use yocto_qemu_edu_lab.RuntimeEvidence.Validate.{
  tests_of, validate_project, validate_build, test_statuses, tests_value, validate_tests,
  revision_check, exit_code_of, build_texts,
}
use yocto_qemu_edu_lab.RuntimeEvidence.Judge.{result_of}
use yocto_qemu_edu_lab.RuntimeEvidence.Reads.{
  item_at-get, object_at-get, string_at-get, boolean_at-get, require_string-str, str-inj,
}

-- the revision of a project, where one is expected
abbrev pub IsRevision : Option String → Fields → Type 0
IsRevision none project = Unit
IsRevision (some wanted) project = get "revision" project ≡ some (str wanted)

pub result_of-passed :
    (statuses : List String) (exit_code : ℕ)
    → result_of statuses exit_code ≡ "passed"
    → (count "PASSED" statuses ≡ length statuses) × (exit_code ≡ 0)
unfolding result_of
result_of-passed statuses exit_code h =
    elim (Bool-cases (count "PASSED" statuses == length statuses && exit_code == 0)) [
      | inl both ↦
          let (counted, exited) = and-true _ _ both in
          ((==_iff _ _).0 counted, (==_iff _ _).0 exited)
      | inr not_both ↦ absurd cc (ap (λ t. str_eq t "passed") (rw not_both at h))
    ]

pub tests_of-some :
    (version : ℕ) {tests : List String}
    → tests_of version ≡ ok tests
    → supported_tests version ≡ some tests
tests_of-some version h = elim (Option-cases (supported_tests version)) [
  | inl absent ↦ cc (rw (absent, tests_of) at h)
  | inr (w, present) ↦ cc (rw (present, tests_of) at h)
]

pub exit_code_of-int : (v : Json) {n : ℕ} → exit_code_of v ≡ ok n → v ≡ int (pos n)
exit_code_of-int (int (pos m)) {n} h =
    let (_, small, h1) = >>=-eq-ok (ensure (leb m 255) bad_exit_code) _ h in
    ap (λ k. int (pos k)) (ap (result_or n) h1)
exit_code_of-int (int (negsuc m)) h = cc
exit_code_of-int null h = cc
exit_code_of-int (bool b) h = cc
exit_code_of-int (str s) h = cc
exit_code_of-int (float s) h = cc
exit_code_of-int (arr vs) h = cc
exit_code_of-int (obj fs) h = cc

pub validate_build-exit :
    (evidence : Fields) {exit_code : ℕ}
    → validate_build evidence ≡ ok exit_code
    → (build : Fields) × (get "build" evidence ≡ some (obj build))
      × (get "testimage_exit_code" build ≡ some (int (pos exit_code)))
unfolding validate_build
validate_build-exit evidence h =
    let (build, found, h1) =
      >>=-eq-ok (object_at "build" (build_texts ++ "testimage_exit_code" ∷ []) evidence) _ h in
    let (_, texts, h2) =
      >>=-eq-ok (in_turn (map (λ key. string_at key build >>= λ text. ok tt) build_texts)) _ h1 in
    let (v, there, small) = >>=-eq-ok (item_at "testimage_exit_code" build) exit_code_of h2 in
    (
      build,
      object_at-get "build" (build_texts ++ "testimage_exit_code" ∷ []) evidence found,
      item_at-get "testimage_exit_code" build there ∙ ap some (exit_code_of-int v small),
    )

pub revision_check-IsRevision :
    (expected : Option String) (project : Fields) (revision : String) {done : Unit {0}}
    → get "revision" project ≡ some (str revision)
    → revision_check expected revision ≡ ok done
    → IsRevision expected project
revision_check-IsRevision none project revision there h = tt
revision_check-IsRevision (some wanted) project revision there h =
    let (text, stated, h1) = >>=-eq-ok (require_string (str wanted)) _ h in
    let (_, commit, same) = >>=-eq-ok (ensure (fullmatch sha1_pattern text) bad_revision) _ h1 in
    there
    ∙ ap (λ s. some (str s))
        ((eq_iff revision text).0 (ensure-true (str_eq revision text) other_revision same)
          ∙ sym (str-inj (require_string-str (str wanted) stated)))

pub validate_project-dirty :
    (expected : Option String) (evidence : Fields) {dirty : Bool}
    → validate_project expected evidence ≡ ok dirty
    → (project : Fields) × (get "project" evidence ≡ some (obj project))
      × (get "dirty" project ≡ some (bool dirty))
      × IsRevision expected project
unfolding validate_project
validate_project-dirty expected evidence {dirty = wanted_dirty} h =
    let names = "name" ∷ "version" ∷ "revision" ∷ "dirty" ∷ [] in
    let (project, found, h1) = >>=-eq-ok (object_at "project" names evidence) _ h in
    let (_, ours, h2) =
      >>=-eq-ok (text_is "name" "yocto-qemu-edu-lab" other_project project) _ h1 in
    let (_, versioned, h3) = >>=-eq-ok (string_at "version" project) _ h2 in
    let (dirty, read, h4) = >>=-eq-ok (boolean_at "dirty" project) _ h3 in
    let (revision, named, h5) = >>=-eq-ok (string_at "revision" project) _ h4 in
    let (_, commit, h6) = >>=-eq-ok (ensure (fullmatch sha1_pattern revision) bad_revision) _ h5 in
    let (_, same, h7) = >>=-eq-ok (revision_check expected revision) _ h6 in
    (
      project,
      object_at-get "project" names evidence found,
      boolean_at-get "dirty" project read
          ∙ ap (λ b. some (bool b)) (ap (result_or wanted_dirty) h7),
      revision_check-IsRevision expected project revision (string_at-get "revision" project named)
          same,
    )

pub tests_value-arr :
    (is_finite_positive : String → Bool) (tests : List String) (v : Json) {statuses : List String}
    → tests_value is_finite_positive tests v ≡ ok statuses
    → (values : Items) × (v ≡ arr values)
      × (length (items values) ≡ length tests)
      × (test_statuses is_finite_positive tests (items values) ≡ ok statuses)
tests_value-arr f tests (arr vs) h =
    let (_, many, h1) = >>=-eq-ok (ensure (length (items vs) == length tests) bad_tests) _ h in
    (vs, refl, (==_iff _ _).0 (ensure-true (length (items vs) == length tests) bad_tests many), h1)
tests_value-arr f tests null h = absurd cc
tests_value-arr f tests (bool b) h = absurd cc
tests_value-arr f tests (int n) h = absurd cc
tests_value-arr f tests (float s) h = absurd cc
tests_value-arr f tests (str s) h = absurd cc
tests_value-arr f tests (obj fs) h = absurd cc

pub validate_tests-arr :
    (is_finite_positive : String → Bool) (tests : List String) (evidence : Fields)
    {statuses : List String}
    → validate_tests is_finite_positive tests evidence ≡ ok statuses
    → (values : Items) × (get "tests" evidence ≡ some (arr values))
      × (length (items values) ≡ length tests)
      × (test_statuses is_finite_positive tests (items values) ≡ ok statuses)
unfolding validate_tests
validate_tests-arr f tests evidence h =
    let (v, there, h1) = >>=-eq-ok (item_at "tests" evidence) (tests_value f tests) h in
    let (values, listed, many, judged) = tests_value-arr f tests v h1 in
    (values, item_at-get "tests" evidence there ∙ ap some listed, many, judged)
