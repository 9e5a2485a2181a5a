-- ===== src/RuntimeEvidence/Among.antt =====
-- scripts/runtime_evidence.py: the entries of the results of OEQA that are runs of the suite.
use yocto_qemu_edu_lab.Common.{
  String, eq_iff, ◌≡◌, refl, sym, ap, subst, ◌∙◌, ◌⊎◌, inl, inr, true, Option, none, some, List,
  member, any, ok, >>=-eq-ok, result_or, Bool-cases, Option-cases, ◌↔◌, and-true,
}
use yocto_qemu_edu_lab.Json.{
  Json, null, bool, int, float, str, arr, obj, Fields, end, field, keys, get,
}
use yocto_qemu_edu_lab.RuntimeEvidence.Select.{
  run_le, Run, object_or_none, has_text, required_string, is_of_suite, run_if, run_of,
}
use yocto_qemu_edu_lab.RuntimeEvidence.Reads.{require_string-str, str-inj, some-inj, is_text-str}

-- What an entry of the results of OEQA must be for a run of the suite.
abbrev pub IsRun : String → String → List String → String → Json → Run → Type 0
IsRun machine image expected_tests result_id value run =
    (entry : Fields) × (value ≡ obj entry)
    × (get "configuration" entry ≡ some (obj (run.configuration)))
    × (get "result" entry ≡ some (obj (run.results)))
    × (get "MACHINE" (run.configuration) ≡ some (str machine))
    × (get "IMAGE_BASENAME" (run.configuration) ≡ some (str image))
    × (any (λ test. member test (keys (run.results))) expected_tests ≡ true)
    × (get "STARTTIME" (run.configuration) ≡ some (str (run.started_at)))
    × (run.result_id ≡ result_id)

-- a run of one of the entries
abbrev pub IsAmong : String → String → List String → Fields → Run → Type 0
IsAmong machine image expected_tests end run = ⊥
IsAmong machine image expected_tests (field result_id value entries) run =
    IsRun machine image expected_tests result_id value run
    ⊎ IsAmong machine image expected_tests entries run

-- Each entry is no run of the suite, or one that is at most this run.
abbrev pub IsLast : String → String → List String → Fields → Run → Type 0
IsLast machine image expected_tests end run = Unit
IsLast machine image expected_tests (field result_id value entries) run =
    ((¬ ((other : Run) × IsRun machine image expected_tests result_id value other))
      ⊎ ((other : Run) × IsRun machine image expected_tests result_id value other
          × (run_le other run ≡ true)))
    × IsLast machine image expected_tests entries run

has_text_lem :
    (key text : String) (fields : Fields)
    → (has_text key text fields ≡ true) ↔ (get key fields ≡ some (str text))
has_text_lem key text fields = (
  λ h. elim (Option-cases (get key fields)) [
    | inl absent ↦ absurd cc (rw (absent, has_text) at h)
    | inr (v, present) ↦ present ∙ ap some (is_text-str v text (rw (present, has_text) at h))
  ],
  λ h. rw (h, has_text) ((eq_iff text text).1 refl),
)

pub object_or_none-obj :
    (o : Option Json) {fields : Fields} → object_or_none o ≡ some fields → o ≡ some (obj fields)
object_or_none-obj none h = cc
object_or_none-obj (some (obj fs)) h = cc
object_or_none-obj (some null) h = cc
object_or_none-obj (some (bool b)) h = cc
object_or_none-obj (some (int n)) h = cc
object_or_none-obj (some (float s)) h = cc
object_or_none-obj (some (str s)) h = cc
object_or_none-obj (some (arr vs)) h = cc

pub required_string-get :
    (key : String) (fields : Fields) {t : String}
    → required_string key fields ≡ ok t
    → get key fields ≡ some (str t)
required_string-get key fields h = elim (Option-cases (get key fields)) [
  | inl absent ↦ cc (rw (absent, required_string) at h)
  | inr (v, present) ↦ present ∙ ap some (require_string-str v (rw (present, required_string) at h))
]

module _ (machine image : String) (expected_tests : List String) where
  -- the run of a configuration and its results
  run_if-IsRun :
      (result_id : String) (entry configuration results : Fields) {run : Run}
      → get "configuration" entry ≡ some (obj configuration)
      → get "result" entry ≡ some (obj results)
      → run_if machine image expected_tests
          (is_of_suite machine image expected_tests configuration results)
          result_id
          configuration
          results
        ≡ ok (some run)
      → IsRun machine image expected_tests result_id (obj entry) run
  run_if-IsRun result_id entry configuration results {run} here there h =
      elim (Bool-cases (is_of_suite machine image expected_tests configuration results)) [
        | inl suite ↦
            let (of_machine, others) = and-true _ _ suite in
            let (of_image, has_test) = and-true _ _ others in
            let (started_at, started, h1) =
              >>=-eq-ok (required_string "STARTTIME" configuration) _ (rw suite at h) in
            subst (IsRun machine image expected_tests result_id (obj entry))
              (some-inj (ap (result_or none) h1))
              (
                entry,
                refl,
                here,
                there,
                (has_text_lem "MACHINE" machine configuration).0 of_machine,
                (has_text_lem "IMAGE_BASENAME" image configuration).0 of_image,
                has_test,
                required_string-get "STARTTIME" configuration started,
                refl,
              )
        | inr other ↦ absurd cc (ap (result_or none) (rw other at h))
      ]

  pub run_of-IsRun :
      (result_id : String) (value : Json) {run : Run}
      → run_of machine image expected_tests result_id value ≡ ok (some run)
      → IsRun machine image expected_tests result_id value run
  run_of-IsRun result_id (obj entry) h =
      elim (Option-cases (object_or_none (get "configuration" entry))) [
        | inl absent ↦ absurd cc (ap (result_or none) (rw absent at h))
        | inr (c, here) ↦ elim (Option-cases (object_or_none (get "result" entry))) [
          | inl absent ↦ absurd cc (ap (result_or none) (rw (here, absent) at h))
          | inr (r, there) ↦
              run_if-IsRun result_id entry c r (object_or_none-obj (get "configuration" entry) here)
                (object_or_none-obj (get "result" entry) there) (rw (here, there) at h)
        ]
      ]
  run_of-IsRun result_id null h = absurd cc (ap (result_or none) h)
  run_of-IsRun result_id (bool b) h = absurd cc (ap (result_or none) h)
  run_of-IsRun result_id (int n) h = absurd cc (ap (result_or none) h)
  run_of-IsRun result_id (float s) h = absurd cc (ap (result_or none) h)
  run_of-IsRun result_id (str s) h = absurd cc (ap (result_or none) h)
  run_of-IsRun result_id (arr vs) h = absurd cc (ap (result_or none) h)

  -- what is found in an entry of a run is that run
  pub IsRun-run_of :
      (result_id : String) (value : Json) (run : Run) {found : Option Run}
      → IsRun machine image expected_tests result_id value run
      → run_of machine image expected_tests result_id value ≡ ok found
      → found ≡ some run
  IsRun-run_of result_id value run {found}
        (entry, is_obj, here, there, of_machine, of_image, has_test, started, same) h =
      let configuration = run.configuration in
      let suite : is_of_suite machine image expected_tests configuration (run.results) ≡ true =
        rw
          (
            (has_text_lem "MACHINE" machine configuration).1 of_machine,
            (has_text_lem "IMAGE_BASENAME" image configuration).1 of_image,
          )
          has_test in
      let opened =
        subst (λ v. run_of machine image expected_tests result_id v ≡ ok found) is_obj h in
      let (started_at, read, h1) =
        >>=-eq-ok (required_string "STARTTIME" configuration) _
          (rw (here, there, suite) at opened) in
      sym (ap (result_or none) h1)
      ∙ ap
          (λ t. some (record {
            started_at = t;
            result_id = result_id;
            configuration = configuration;
            results = run.results;
          }))
          (str-inj (some-inj (sym (required_string-get "STARTTIME" configuration read) ∙ started)))
      ∙ ap
          (λ i. some (record {
            started_at = run.started_at;
            result_id = i;
            configuration = configuration;
            results = run.results;
          }))
          (sym same)
