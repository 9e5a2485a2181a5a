-- ===== src/LabConfig/Values.antt =====
-- scripts/lab_config.py: the errors and the validators of single values. An error is the kind of
-- its message, without the place that the message names.
use yocto_qemu_edu_lab.Common.{
  ℕ, String, is_space, member, Bool, true, false, ◌&&◌, ◌||◌, not, none, some, List, [], ◌∷◌, ◌++◌,
  if◌then◌else◌, leb, ◌==◌, length, all, any, codes, same_bytes, Result, ok, err, ◌>>=◌, ◌>>◌,
  ensure,
}
use yocto_qemu_edu_lab.Json.{pos, Json, int, str, arr, obj, Fields, items, keys, get}
use yocto_qemu_edu_lab.Regex.{matches}
use yocto_qemu_edu_lab.SourceLock.Paths.{
  backslash, starts_with, is_normalized, first_is, parts, is_absolute, join,
}
use yocto_qemu_edu_lab.SourceLock.Values.{token_pattern}

pub data LabError : Type 0 where
  missing_fields unknown_fields not_object not_text long_text not_positive not_array : LabError
  duplicate_items bad_space not_normalized bad_part not_under bad_binary : LabError
  bad_version other_id bad_description bad_build_dir bad_token not_one_target : LabError
  unknown_profile not_basename not_json other_value : LabError
  bad_evidence_profile too_many_packages bad_license packages_not_sorted : LabError
  forbidden_not_sorted rules_overlap not_forbidden : LabError
  other_build bad_id duplicate_id not_labs duplicate_path bad_digest no_default : LabError
  other_digest duplicate_build_dir duplicate_machine unreadable unknown_lab unknown_field : LabError
  -- a KeyError
  no_key : LabError

abbrev pub Checked : Type 0 → Type 0
Checked = Result LabError

abbrev pub max_string_length : ℕ
max_string_length = 4096

-- `value[key]`
abbrev pub item_at : String → Fields → Checked Json
item_at key fields = elim (get key fields) [ none ↦ err no_key | some value ↦ ok value ]

unfoldable pub exact_keys : Fields → List String → Checked Unit
exact_keys fields expected =
    ensure (all (λ k. member k (keys fields)) expected) missing_fields
    >> ensure (all (λ k. member k expected) (keys fields)) unknown_fields

unfoldable pub object_value : Json → Checked Fields
object_value (obj fields) = ok fields
object_value _ = err not_object

abbrev pub has_none : List ℕ → Bool
has_none [] = true
has_none (c ∷ text) = false

abbrev pub text_value : String → Checked String
text_value text =
    ensure (not (has_none (codes text))) not_text
    >> ensure (leb (length (codes text)) max_string_length) long_text
    >> ok text

unfoldable pub string_value : Json → Checked String
string_value (str text) = text_value text
string_value _ = err not_text

-- `type(value) is not int or value < 1`
unfoldable pub integer_value : Json → Checked ℕ
integer_value (int (pos n)) = ensure (leb 1 n) not_positive >> ok n
integer_value _ = err not_positive

abbrev pub is_distinct : List String → Bool
is_distinct [] = true
is_distinct (x ∷ xs) = not (member x xs) && is_distinct xs

abbrev pub texts_of : List Json → Checked (List String)
unfolding string_value
texts_of [] = ok []
texts_of (v ∷ vs) = string_value v >>= λ text. texts_of vs >>= λ texts. ok (text ∷ texts)

abbrev pub list_value : List Json → Checked (List String)
list_value [] = err not_array
list_value (v ∷ vs) =
    texts_of (v ∷ vs) >>= λ texts. ensure (is_distinct texts) duplicate_items >> ok texts

unfoldable pub string_list : Json → Checked (List String)
string_list (arr vs) = list_value (items vs)
string_list _ = err not_array

-- `"\\" in text or any(character.isspace() for character in text)`
unfoldable pub has_bad_space : List ℕ → Bool
unfolding is_space
has_bad_space text = any (λ c. c == backslash) text || any is_space text

-- `TOKEN.fullmatch(part)`, of code points
abbrev pub is_part : List ℕ → Bool
unfolding matches
is_part part = matches token_pattern part

unfoldable pub relative_path : Json → Checked String
unfolding string_value is_normalized has_bad_space
relative_path value = string_value value >>= λ text.
    ensure (not (has_bad_space (codes text))) bad_space
    >> ensure (is_normalized (codes text)) not_normalized
    >> ensure (all is_part (parts (codes text))) bad_part
    >> ok text

-- `relative_path(value, where, under=name)`
unfoldable pub path_under : String → Json → Checked String
unfolding relative_path
path_under name value = relative_path value >>= λ text.
    ensure (first_is (codes name) (parts (codes text))) not_under >> ok text

-- The root of an absolute path: two slashes are kept, and three are one.
abbrev pub root_of : List ℕ → List ℕ
root_of text =
    if starts_with (codes "//") text && not (starts_with (codes "///") text)
    then codes "//"
    else codes "/"

-- `PurePosixPath(text).as_posix()` of an absolute text
abbrev pub absolute_posix : List ℕ → List ℕ
absolute_posix text = root_of text ++ join (parts text)

abbrev pub name_in : List (List ℕ) → List ℕ
name_in [] = []
name_in (part ∷ []) = part
name_in (part ∷ next ∷ rest) = name_in (next ∷ rest)

abbrev pub same_parts : List (List ℕ) → List (List ℕ) → Bool
same_parts [] [] = true
same_parts (p ∷ ps) (q ∷ qs) = same_bytes p q && same_parts ps qs
same_parts _ _ = false

abbrev pub but_last : List (List ℕ) → List (List ℕ)
but_last [] = []
but_last (part ∷ []) = []
but_last (part ∷ next ∷ rest) = part ∷ but_last (next ∷ rest)

-- `path.parent == PurePosixPath("/usr/bin")`
abbrev pub is_in_usr_bin : List ℕ → Bool
is_in_usr_bin text =
    same_bytes (root_of text) (codes "/")
    && same_parts (but_last (parts text)) (codes "usr" ∷ codes "bin" ∷ [])

abbrev pub is_usr_binary : List ℕ → Bool
is_usr_binary text =
    is_absolute text
    && same_bytes text (absolute_posix text)
    && is_in_usr_bin text
    && is_part (name_in (parts text))

unfoldable pub guest_binary_path : Json → Checked String
unfolding string_value has_bad_space
guest_binary_path value = string_value value >>= λ text.
    ensure (not (has_bad_space (codes text))) bad_space
    >> ensure (is_usr_binary (codes text)) bad_binary
    >> ok text
