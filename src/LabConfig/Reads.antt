-- ===== src/LabConfig/Reads.antt =====
-- scripts/lab_config.py: what the readers of a field have found, and what a rule that holds says.
use yocto_qemu_edu_lab.Common.{
  ℕ, String, ◌≡◌, ap, ◌∙◌, inl, inr, some, ok, ◌>>=◌, ◌>>◌, >>=-eq-ok, result_or, Option-cases,
}
use yocto_qemu_edu_lab.Json.{pos, negsuc, Json, null, bool, int, float, str, arr, obj, Fields, get}
use yocto_qemu_edu_lab.LabConfig.Values.{
  Checked, item_at, object_value, string_value, integer_value, relative_path, path_under,
  guest_binary_path,
}
use yocto_qemu_edu_lab.LabConfig.Fields.{text_at, path_at, as_text, number_at}

-- A chain of tests that ends in `ok s`.
ends : {A B : Type 0} (m : Checked A) {s t : B} → (m >> ok s) ≡ ok t → s ≡ t
ends m {s} h = ap (result_or s) ((>>=-eq-ok m (λ done. ok s) h).2)

pub string_value-str : (v : Json) {t : String} → string_value v ≡ ok t → v ≡ str t
unfolding string_value
string_value-str (str s) h = ap str (ends _ h)
string_value-str null h = cc
string_value-str (bool b) h = cc
string_value-str (int n) h = cc
string_value-str (float s) h = cc
string_value-str (arr vs) h = cc
string_value-str (obj fs) h = cc

integer_value-int : (v : Json) {n : ℕ} → integer_value v ≡ ok n → v ≡ int (pos n)
unfolding integer_value
integer_value-int (int (pos m)) h = ap (λ k. int (pos k)) (ends _ h)
integer_value-int (int (negsuc m)) h = cc
integer_value-int (str s) h = cc
integer_value-int null h = cc
integer_value-int (bool b) h = cc
integer_value-int (float s) h = cc
integer_value-int (arr vs) h = cc
integer_value-int (obj fs) h = cc

relative_path-str : (v : Json) {t : String} → relative_path v ≡ ok t → v ≡ str t
unfolding relative_path
relative_path-str v h =
    let (s, first, h1) = >>=-eq-ok (string_value v) _ h in
    string_value-str v first ∙ ap str (ends _ h1)

path_under-str : (name : String) (v : Json) {t : String} → path_under name v ≡ ok t → v ≡ str t
unfolding path_under
path_under-str name v h =
    let (s, first, h1) = >>=-eq-ok (relative_path v) _ h in
    relative_path-str v first ∙ ap str (ends _ h1)

guest_binary_path-str : (v : Json) {t : String} → guest_binary_path v ≡ ok t → v ≡ str t
unfolding guest_binary_path
guest_binary_path-str v h =
    let (s, first, h1) = >>=-eq-ok (string_value v) _ h in
    string_value-str v first ∙ ap str (ends _ h1)

pub object_value-obj : (v : Json) {fields : Fields} → object_value v ≡ ok fields → v ≡ obj fields
unfolding object_value
object_value-obj (obj fs) h = cc
object_value-obj null h = cc
object_value-obj (bool b) h = cc
object_value-obj (int n) h = cc
object_value-obj (float s) h = cc
object_value-obj (arr vs) h = cc
object_value-obj (str s) h = cc

pub item_at-get :
    (key : String) (fields : Fields) {v : Json}
    → item_at key fields ≡ ok v
    → get key fields ≡ some v
item_at-get key fields h = elim (Option-cases (get key fields)) [
  | inl absent ↦ cc (rw (absent, item_at) at h)
  | inr (w, present) ↦ cc (rw (present, item_at) at h)
]

-- A validator that returns the text that it is given.
abbrev Reads : (Json → Checked String) → Type 0
Reads check = (v : Json) (t : String) → check v ≡ ok t → v ≡ str t

at-get :
    (key : String) (fields : Fields) (check : Json → Checked String) {t : String}
    → Reads check
    → (item_at key fields >>= check) ≡ ok t
    → get key fields ≡ some (str t)
at-get key fields check sure h =
    let (v, present, h1) = >>=-eq-ok (item_at key fields) _ h in
    item_at-get key fields present ∙ ap some (sure v _ h1)

pub text_at-get :
    (key : String) (fields : Fields) {t : String}
    → text_at key fields ≡ ok t
    → get key fields ≡ some (str t)
text_at-get key fields h = at-get key fields string_value (λ v t. string_value-str v) h

pub path_at-get :
    (key : String) (fields : Fields) {t : String}
    → path_at key fields ≡ ok t
    → get key fields ≡ some (str t)
path_at-get key fields h = at-get key fields relative_path (λ v t. relative_path-str v) h

pub object_at-get :
    (key : String) (fields : Fields) {found : Fields}
    → (item_at key fields >>= object_value) ≡ ok found
    → get key fields ≡ some (obj found)
object_at-get key fields h =
    let (v, present, h1) = >>=-eq-ok (item_at key fields) _ h in
    item_at-get key fields present ∙ ap some (object_value-obj v h1)

-- A read of a value that is compared: what it returns is the value of the field.
abbrev pub IsRead : Fields → String → Checked Json → Type 0
IsRead fields key read = (v : Json) → read ≡ ok v → get key fields ≡ some v

as_text-get :
    (key : String) (fields : Fields) (read : Checked String)
    → ((t : String) → read ≡ ok t → get key fields ≡ some (str t))
    → IsRead fields key (as_text read)
as_text-get key fields read sure v h =
    let (t, found, h1) = >>=-eq-ok read _ h in sure t found ∙ ap some (ap (result_or v) h1)

pub text-IsRead :
    (key : String) (fields : Fields) → IsRead fields key (as_text (text_at key fields))
text-IsRead key fields = as_text-get key fields _ (λ t. text_at-get key fields)

pub path-IsRead :
    (key : String) (fields : Fields) → IsRead fields key (as_text (path_at key fields))
path-IsRead key fields = as_text-get key fields _ (λ t. path_at-get key fields)

pub under-IsRead :
    (name key : String) (fields : Fields)
    → IsRead fields key (as_text (item_at key fields >>= path_under name))
under-IsRead name key fields =
    as_text-get key fields _
      (λ t. at-get key fields (path_under name) (λ v u. path_under-str name v))

pub guest-IsRead :
    (key : String) (fields : Fields)
    → IsRead fields key (as_text (item_at key fields >>= guest_binary_path))
guest-IsRead key fields =
    as_text-get key fields _
      (λ t. at-get key fields guest_binary_path (λ v u. guest_binary_path-str v))

pub number-IsRead : (key : String) (fields : Fields) → IsRead fields key (number_at key fields)
number-IsRead key fields v h =
    let (n, read, h1) = >>=-eq-ok (item_at key fields >>= integer_value) _ h in
    let (w, present, h2) = >>=-eq-ok (item_at key fields) _ read in
    item_at-get key fields present ∙ ap some (integer_value-int w h2 ∙ ap (result_or v) h1)
