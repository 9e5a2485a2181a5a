-- ===== src/SourceLock/Values.antt =====
-- scripts/source_lock.py: the errors, the constants and the validators of single values. An error
-- is the kind of its message, without the place that the message names.
use yocto_qemu_edu_lab.Common.{
  ℕ, String, member, is_space, Bool, true, false, ◌&&◌, ◌||◌, not, none, some, List, [], ◌∷◌, leb,
  length, all, any, codes, Result, ok, err, ◌>>=◌, ◌>>◌, ◌==◌,
}
use yocto_qemu_edu_lab.Json.{Json, str, arr, obj, Fields, items, keys, get}
use yocto_qemu_edu_lab.Regex.{
  Regex, seq, one, star, alt, repeated, literal, fullmatch, alnum, digit, lower, hex,
}
use yocto_qemu_edu_lab.SourceLock.Paths.{
  contains, starts_with, ends_with, backslash, slash, is_normalized, first_is, parts,
}

pub data LockError : Type 0 where
  missing_fields unknown_fields not_object not_text long_text not_array duplicate_items : LockError
  bad_slash has_space not_normalized not_under unsafe_ref : LockError
  bad_version bad_token bad_project bad_system overlaps_layers : LockError
  no_sources bad_id duplicate_id bad_type bad_url other_url other_branch other_release : LockError
  bad_format bad_commit duplicate_path overlapping_path bad_source_set : LockError
  -- a KeyError, an IndexError and the ValueError of `urlsplit`
  no_key no_part url_error : LockError

abbrev pub Checked : Type 0 → Type 0
Checked = Result LockError

-- raise, unless the test holds
abbrev pub require : Bool → LockError → Checked Unit
require true e = ok tt
require false e = err e

abbrev pub max_string_length : ℕ
max_string_length = 4096

abbrev pub source_ids : List String
source_ids = "bitbake" ∷ "openembedded-core" ∷ "meta-yocto" ∷ []

abbrev pub root_keys : List String
root_keys = "schema_version" ∷ "release" ∷ "build" ∷ "sources" ∷ []

abbrev pub release_keys : List String
release_keys = "project" ∷ "version" ∷ "series" ∷ []

abbrev pub build_keys : List String
build_keys =
    "build_system" ∷ "environment_script" ∷ "bitbake_bin" ∷ "build_dir" ∷ "distro" ∷ "machine"
    ∷ "targets" ∷ "layers" ∷ []

abbrev pub source_keys : List String
source_keys =
    "id" ∷ "type" ∷ "url" ∷ "branch_ref" ∷ "release_ref" ∷ "commit" ∷ "object_format" ∷ "path"
    ∷ "required_paths" ∷ []

abbrev pub source_urls : List (String × String)
source_urls =
    ("bitbake", "https://git.openembedded.org/bitbake")
    ∷ ("openembedded-core", "https://git.openembedded.org/openembedded-core")
    ∷ ("meta-yocto", "https://git.yoctoproject.org/meta-yocto")
    ∷ []

abbrev token_rest : ℕ → Bool
token_rest c = alnum c || c == b'.' || c == b'_' || c == b'+' || c == b'-'

abbrev pub token_pattern : Regex
token_pattern = seq (one alnum) (star (one token_rest))

abbrev id_first : ℕ → Bool
id_first c = lower c || digit c

abbrev id_rest : ℕ → Bool
id_rest c = lower c || digit c || c == b'-'

abbrev pub source_id_pattern : Regex
source_id_pattern = seq (one id_first) (star (one id_rest))

abbrev pub commit_pattern : Regex
commit_pattern = repeated 40 (one hex)

abbrev ref_rest : ℕ → Bool
ref_rest c = alnum c || c == b'.' || c == b'_' || c == b'/' || c == b'-'

abbrev pub git_ref_pattern : Regex
git_ref_pattern = seq (literal (codes "refs/")) (
    seq (alt (literal (codes "heads")) (literal (codes "tags")))
      (seq (literal (codes "/")) (seq (one alnum) (star (one ref_rest)))))

abbrev pub distinct : List String → Bool
distinct [] = true
distinct (x ∷ xs) = not (member x xs) && distinct xs

-- `value[key]`
abbrev pub item_at : String → Fields → Checked Json
item_at key fields = elim (get key fields) [ none ↦ err no_key | some value ↦ ok value ]

unfoldable pub exact_keys : Fields → List String → Checked Unit
exact_keys fields expected =
    require (all (λ k. member k (keys fields)) expected) missing_fields
    >> require (all (λ k. member k expected) (keys fields)) unknown_fields

unfoldable pub object_value : Json → Checked Fields
object_value (obj fields) = ok fields
object_value _ = err not_object

abbrev pub is_blank : List ℕ → Bool
is_blank [] = true
is_blank (c ∷ text) = false

abbrev pub text_value : String → Checked String
text_value text =
    require (not (is_blank (codes text))) not_text
    >> require (leb (length (codes text)) max_string_length) long_text
    >> ok text

unfoldable pub string_value : Json → Checked String
string_value (str text) = text_value text
string_value _ = err not_text

abbrev pub texts_of : List Json → Checked (List String)
unfolding string_value
texts_of [] = ok []
texts_of (v ∷ vs) = string_value v >>= λ text. texts_of vs >>= λ texts. ok (text ∷ texts)

abbrev pub list_value : List Json → Checked (List String)
list_value [] = err not_array
list_value (v ∷ vs) =
    texts_of (v ∷ vs) >>= λ texts. require (distinct texts) duplicate_items >> ok texts

unfoldable pub string_list : Json → Checked (List String)
string_list (arr vs) = list_value (items vs)
string_list _ = err not_array

unfoldable pub relative_path : Json → Checked String
unfolding string_value is_space is_normalized
relative_path value = string_value value >>= λ text.
    require (not (any (λ c. c == backslash) (codes text))) bad_slash
    >> require (not (any is_space (codes text))) has_space
    >> require (is_normalized (codes text)) not_normalized
    >> ok text

-- `relative_path(value, where, under="layers")`
unfoldable pub path_under : String → Json → Checked String
unfolding relative_path
path_under name value = relative_path value >>= λ text.
    require (first_is (codes name) (parts (codes text))) not_under >> ok text

abbrev pub is_safe : String → String → Bool
is_safe prefix text =
    fullmatch git_ref_pattern text
    && starts_with (codes prefix) (codes text)
    && not (contains (codes "..") (codes text))
    && not (contains (codes "@{") (codes text))
    && not (ends_with b'.' (codes text))
    && not (ends_with slash (codes text))
    && not (contains (codes "//") (codes text))

unfoldable pub git_ref : Json → String → Checked String
unfolding string_value fullmatch
git_ref value prefix =
    string_value value >>= λ text. require (is_safe prefix text) unsafe_ref >> ok text
