-- ===== src/RuntimeEvidence/Reads.antt =====
-- scripts/runtime_evidence.py: what the readers of a field have found.
use yocto_qemu_edu_lab.Common.{
  ℕ, String, false, eq_iff, ◌≡◌, ap, ◌∙◌, inl, inr, Bool, true, some, List, Option-cases, ok, ◌>>=◌,
  >>=-eq-ok, ensure, ensure-true, result_or, not, leb, length, codes,
}
use yocto_qemu_edu_lab.Json.{pos, negsuc, Json, null, bool, int, float, str, arr, obj, Fields, get}
use yocto_qemu_edu_lab.RuntimeEvidence.Values.{
  EvidenceError, Checked, item_at, object_of, object_at, require_exact_keys, require_string,
  require_integer, require_boolean, string_at, integer_at, boolean_at, is_text, text_is, text_value,
  not_string, long_string, has_none,
}
use yocto_qemu_edu_lab.RuntimeEvidence.Suite.{max_string_length}

pub item_at-get :
    (key : String) (fields : Fields) {v : Json}
    → item_at key fields ≡ ok v
    → get key fields ≡ some v
item_at-get key fields h = elim (Option-cases (get key fields)) [
  | inl absent ↦ cc (rw (absent, item_at) at h)
  | inr (w, present) ↦ cc (rw (present, item_at) at h)
]

pub object_of-obj : (v : Json) {fields : Fields} → object_of v ≡ ok fields → v ≡ obj fields
object_of-obj (obj fs) h = cc
object_of-obj null h = cc
object_of-obj (bool b) h = cc
object_of-obj (int n) h = cc
object_of-obj (float s) h = cc
object_of-obj (arr vs) h = cc
object_of-obj (str s) h = cc

pub object_at-get :
    (key : String) (expected : List String) (fields : Fields) {found : Fields}
    → object_at key expected fields ≡ ok found
    → get key fields ≡ some (obj found)
object_at-get key expected fields {found} h =
    let (object, read, h1) = >>=-eq-ok (item_at key fields >>= object_of) _ h in
    let (_, exact, h2) = >>=-eq-ok (require_exact_keys object expected) _ h1 in
    let (value, there, opened) = >>=-eq-ok (item_at key fields) _ read in
    item_at-get key fields there
    ∙ ap some (object_of-obj value opened ∙ ap obj (ap (result_or found) h2))

text_value-eq : (s : String) {t : String} → text_value s ≡ ok t → s ≡ t
text_value-eq s {t} h =
    let (_, some_text, h1) = >>=-eq-ok (ensure (not (has_none (codes s))) not_string) _ h in
    let (_, short, h2) =
      >>=-eq-ok (ensure (leb (length (codes s)) max_string_length) long_string) _ h1 in
    ap (result_or t) h2

pub require_string-str : (v : Json) {t : String} → require_string v ≡ ok t → v ≡ str t
unfolding require_string
require_string-str (str s) h = ap str (text_value-eq s h)
require_string-str null h = cc
require_string-str (bool b) h = cc
require_string-str (int n) h = cc
require_string-str (float s) h = cc
require_string-str (arr vs) h = cc
require_string-str (obj fs) h = cc

require_integer-int : (v : Json) {n : ℕ} → require_integer v ≡ ok n → v ≡ int (pos n)
unfolding require_integer
require_integer-int (int (pos m)) h = cc
require_integer-int (int (negsuc m)) h = cc
require_integer-int null h = cc
require_integer-int (bool b) h = cc
require_integer-int (str s) h = cc
require_integer-int (float s) h = cc
require_integer-int (arr vs) h = cc
require_integer-int (obj fs) h = cc

require_boolean-bool : (v : Json) {b : Bool} → require_boolean v ≡ ok b → v ≡ bool b
unfolding require_boolean
require_boolean-bool (bool b) h = cc
require_boolean-bool null h = cc
require_boolean-bool (int n) h = cc
require_boolean-bool (str s) h = cc
require_boolean-bool (float s) h = cc
require_boolean-bool (arr vs) h = cc
require_boolean-bool (obj fs) h = cc

pub is_text-str : (v : Json) (text : String) → is_text v text ≡ true → v ≡ str text
is_text-str (str s) text h = ap str ((eq_iff s text).0 h)
is_text-str null text h = cc
is_text-str (bool b) text h = cc
is_text-str (int n) text h = cc
is_text-str (float s) text h = cc
is_text-str (arr vs) text h = cc
is_text-str (obj fs) text h = cc

-- an item that a validator has read
read-get :
    {A : Type 0} (key : String) (fields : Fields) (check : Json → Checked A) (value : A → Json)
    {a : A}
    → ((v : Json) (b : A) → check v ≡ ok b → v ≡ value b)
    → (item_at key fields >>= check) ≡ ok a
    → get key fields ≡ some (value a)
read-get key fields check value sure h =
    let (v, there, checked) = >>=-eq-ok (item_at key fields) check h in
    item_at-get key fields there ∙ ap some (sure v _ checked)

pub string_at-get :
    (key : String) (fields : Fields) {t : String}
    → string_at key fields ≡ ok t
    → get key fields ≡ some (str t)
string_at-get key fields h = read-get key fields require_string str (λ v t. require_string-str v) h

pub integer_at-get :
    (key : String) (fields : Fields) {n : ℕ}
    → integer_at key fields ≡ ok n
    → get key fields ≡ some (int (pos n))
integer_at-get key fields h =
    read-get key fields require_integer (λ n. int (pos n)) (λ v n. require_integer-int v) h

pub boolean_at-get :
    (key : String) (fields : Fields) {b : Bool}
    → boolean_at key fields ≡ ok b
    → get key fields ≡ some (bool b)
boolean_at-get key fields h =
    read-get key fields require_boolean bool (λ v b. require_boolean-bool v) h

pub text_is-get :
    (key text : String) (error : EvidenceError) (fields : Fields) {done : Unit {0}}
    → text_is key text error fields ≡ ok done
    → get key fields ≡ some (str text)
text_is-get key text error fields h =
    let (v, there, same) = >>=-eq-ok (item_at key fields) _ h in
    item_at-get key fields there ∙ ap some (is_text-str v text (ensure-true _ _ same))

pub str-inj : {s t : String} → str s ≡ str t → s ≡ t
str-inj h = cc

pub some-inj {ℓ} : {A : Type ℓ} {s t : A} → some s ≡ some t → s ≡ t
some-inj h = cc

pub not-true : (b : Bool) → not b ≡ true → b ≡ false
not-true true h = cc
not-true false h = cc
