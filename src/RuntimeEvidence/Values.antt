-- ===== src/RuntimeEvidence/Values.antt =====
-- scripts/runtime_evidence.py: the errors and the validators of single values. An error is the
-- kind of its message, without the place that the message names.
use yocto_qemu_edu_lab.Common.{
  ℕ, ◌+◌, ◌-◌, String, str_eq, member, Bool, true, false, ◌&&◌, not, none, some, List, [], ◌∷◌,
  if◌then◌else◌, leb, length, all, codes, Result, ok, err, ◌>>=◌, ensure,
}
use Prim.Native.Nat.{◌^◌}
use yocto_qemu_edu_lab.Json.{pos, negsuc, Json, bool, int, float, str, obj, Fields, keys, get}
use yocto_qemu_edu_lab.RuntimeEvidence.Suite.{max_string_length}

pub data EvidenceError : Type 0 where
  keys_differ not_object not_string long_string not_integer not_boolean : EvidenceError
  other_schema other_guest other_suite other_project bad_revision other_revision : EvidenceError
  bad_digest bad_exit_code bad_tests other_test bad_status bad_duration : EvidenceError
  timeout_differs absence_differs interrupts_differ dma_differ : EvidenceError
  summary_differs result_differs not_passed not_clean : EvidenceError
  no_negative_path no_interrupt_path no_dma_path : EvidenceError
  no_result missing_test no_release : EvidenceError
  -- a KeyError, and the OverflowError of a float that an integer is too large for
  no_key overflow : EvidenceError
  -- an OSError, or a CalledProcessError of Git
  raised : EvidenceError

abbrev pub Checked : Type 0 → Type 0
Checked = Result EvidenceError

-- `value[key]`
abbrev pub item_at : String → Fields → Checked Json
item_at key fields = elim (get key fields) [ none ↦ err no_key | some value ↦ ok value ]

-- `actual != expected`, of two sets
unfoldable pub require_exact_keys : Fields → List String → Checked Unit
require_exact_keys fields expected =
    ensure
      (all (λ k. member k (keys fields)) expected && all (λ k. member k expected) (keys fields))
      keys_differ

abbrev pub object_of : Json → Checked Fields
object_of (obj fields) = ok fields
object_of _ = err not_object

-- `value[key]`, which must be an object with these keys
abbrev pub object_at : String → List String → Fields → Checked Fields
object_at key expected fields = item_at key fields >>= object_of >>= λ found.
    require_exact_keys found expected >>= λ exact. ok found

abbrev pub has_none : List ℕ → Bool
has_none [] = true
has_none (c ∷ text) = false

abbrev pub text_value : String → Checked String
text_value text = ensure (not (has_none (codes text))) not_string >>= λ some_text.
    ensure (leb (length (codes text)) max_string_length) long_string >>= λ short. ok text

unfoldable pub require_string : Json → Checked String
require_string (str text) = text_value text
require_string _ = err not_string

-- an integer of at least 0
unfoldable pub require_integer : Json → Checked ℕ
require_integer (int (pos n)) = ok n
require_integer _ = err not_integer

unfoldable pub require_boolean : Json → Checked Bool
require_boolean (bool b) = ok b
require_boolean _ = err not_boolean

abbrev pub string_at : String → Fields → Checked String
string_at key fields = item_at key fields >>= require_string

abbrev pub integer_at : String → Fields → Checked ℕ
integer_at key fields = item_at key fields >>= require_integer

abbrev pub boolean_at : String → Fields → Checked Bool
boolean_at key fields = item_at key fields >>= require_boolean

-- `value == text`
abbrev pub is_text : Json → String → Bool
is_text (str s) text = str_eq s text
is_text _ text = false

abbrev pub text_is : String → String → EvidenceError → Fields → Checked Unit
text_is key text error fields = item_at key fields >>= λ value. ensure (is_text value text) error

-- the least integer that `float` refuses
abbrev pub float_bound : ℕ
float_bound = 2 ^ 1024 - 2 ^ 970

-- `isfinite(float(value)) and value >= 0`, of the text of a float
module _ (is_finite_positive : String → Bool) where
  unfoldable pub duration_check : Json → Checked Unit
  duration_check (float text) = ensure (is_finite_positive text) bad_duration
  duration_check (int (pos n)) = if leb float_bound n then err overflow else ok tt
  duration_check (int (negsuc n)) =
      if leb float_bound (n + 1) then err overflow else err bad_duration
  duration_check _ = err bad_duration
