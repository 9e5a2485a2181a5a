-- ===== src/RuntimeEvidence/Select.antt =====
-- scripts/runtime_evidence.py: `select_oeqa_result`, the run of the suite that began last.
use yocto_qemu_edu_lab.Common.{
  String, str_eq, Bool, true, false, ◌&&◌, Option, none, some, List, [], ◌∷◌, if◌then◌else◌, member,
  any, ok, err, ◌>>=◌, text_le,
}
use yocto_qemu_edu_lab.Json.{Json, obj, Fields, end, field, keys, get}
use yocto_qemu_edu_lab.RuntimeEvidence.Values.{
  not_string, no_result, Checked, require_string, is_text,
}

-- a candidate
pub record Run : Type 0 where
  pub started_at : String
  pub result_id : String
  pub configuration : Fields
  pub results : Fields

abbrev pub object_or_none : Option Json → Option Fields
object_or_none (some (obj fields)) = some fields
object_or_none _ = none

-- `configuration.get(key) == text`
abbrev pub has_text : String → String → Fields → Bool
has_text key text fields = elim (get key fields) [ none ↦ false | some v ↦ is_text v text ]

-- `require_string(configuration.get(key), key)`
abbrev pub required_string : String → Fields → Checked String
required_string key fields = elim (get key fields) [
  | none ↦ err not_string
  | some v ↦ require_string v
]

module _ (machine image : String) (expected_tests : List String) where
  abbrev pub is_of_suite : Fields → Fields → Bool
  is_of_suite configuration results =
      has_text "MACHINE" machine configuration
      && (has_text "IMAGE_BASENAME" image configuration
          && any (λ test. member test (keys results)) expected_tests)

  abbrev pub run_if : Bool → String → Fields → Fields → Checked (Option Run)
  run_if false result_id configuration results = ok none
  run_if true result_id configuration results =
      required_string "STARTTIME" configuration >>= λ started_at. ok (
        some (record {
          started_at = started_at;
          result_id = result_id;
          configuration = configuration;
          results = results;
        }))

  abbrev pub run_in : String → Option Fields → Option Fields → Checked (Option Run)
  run_in result_id (some configuration) (some results) =
      run_if (is_of_suite configuration results) result_id configuration results
  run_in result_id _ _ = ok none

  -- one turn of the loop; `none` where the entry is passed over
  abbrev pub run_of : String → Json → Checked (Option Run)
  run_of result_id (obj entry) =
      run_in result_id (object_or_none (get "configuration" entry))
        (object_or_none (get "result" entry))
  run_of result_id _ = ok none

  abbrev pub with_run : Option Run → List Run → List Run
  with_run none runs = runs
  with_run (some run) runs = run ∷ runs

  abbrev pub candidates : Fields → Checked (List Run)
  candidates end = ok []
  candidates (field result_id value entries) =
      run_of result_id value >>= λ run. candidates entries >>= λ runs. ok (with_run run runs)

-- `a.started_at, a.result_id <= b.started_at, b.result_id`
unfoldable pub run_le : Run → Run → Bool
run_le a b =
    if str_eq (a.started_at) (b.started_at)
    then text_le (a.result_id) (b.result_id)
    else text_le (a.started_at) (b.started_at)

-- `max`, which keeps the first of those that are equal
abbrev pub latest : Run → List Run → Run
latest run [] = run
latest run (other ∷ runs) = latest (if run_le other run then run else other) runs

abbrev pub latest_of : List Run → Checked Run
latest_of [] = err no_result
latest_of (run ∷ runs) = ok (latest run runs)

unfoldable pub select_oeqa_result : Fields → String → String → List String → Checked Run
select_oeqa_result entries machine image expected_tests =
    candidates machine image expected_tests entries >>= latest_of
