-- ===== src/LabConfig/Fields.antt =====
-- scripts/lab_config.py: how the fields of a manifest are read and compared.

use yocto_qemu_edu_lab.Common.{
  ℕ, String, str_eq, lookup, Bool, false, ◌||◌, none, some, List, [], ◌∷◌, map, codes, same_bytes,
  length, leb, ◌==◌, ok, err, ◌>>=◌, ensure, in_turn,
}
use yocto_qemu_edu_lab.Json.{Json, int, pos, str, Fields}
use yocto_qemu_edu_lab.Regex.{fullmatch}
use yocto_qemu_edu_lab.SourceLock.Paths.{parts}
use yocto_qemu_edu_lab.SourceLock.Values.{token_pattern}
use yocto_qemu_edu_lab.LabConfig.Values.{
  Checked, no_key, bad_token, not_basename, not_json, other_value, item_at, string_value,
  integer_value, relative_path,
}
use yocto_qemu_edu_lab.LabConfig.Profiles.{Rule}

-- `type(value) is not int or value != version`
abbrev pub is_version : ℕ → Json → Bool
is_version version (int (pos n)) = n == version
is_version version _ = false

abbrev pub text_at : String → Fields → Checked String
text_at key fields = item_at key fields >>= string_value

abbrev pub path_at : String → Fields → Checked String
path_at key fields = item_at key fields >>= relative_path

-- the same as a value that a rule is compared with
abbrev pub as_text : Checked String → Checked Json
as_text read = read >>= λ text. ok (str text)

abbrev pub number_at : String → Fields → Checked Json
number_at key fields = item_at key fields >>= integer_value >>= λ n. ok (int (pos n))

-- `actual`, whose values are read in order
abbrev pub collect : List (String × Checked Json) → Checked (List (String × Json))
collect [] = ok []
collect ((key, read) ∷ reads) =
    read >>= λ value. collect reads >>= λ values. ok ((key, value) ∷ values)

-- texts and positive numbers
abbrev pub same_value : Json → Json → Bool
same_value (str s) (str t) = str_eq s t
same_value (int (pos m)) (int (pos n)) = m == n
same_value _ _ = false

-- `actual[field] != expected`
abbrev pub rule_check : List (String × Json) → String × Json → Checked Unit
rule_check actual (key, expected) = elim (lookup key actual) [
  | none ↦ err no_key
  | some value ↦ ensure (same_value value expected) other_value
]

abbrev pub rule_checks : Rule → List (String × Json) → Checked Unit
rule_checks rule actual = in_turn (map (rule_check actual) rule)

-- `PurePosixPath(text).parent == PurePosixPath(".")`, of a relative path
abbrev pub is_basename : String → Bool
is_basename text = leb (length (parts (codes text))) 1

abbrev pub ends_in : List ℕ → List ℕ → Bool
ends_in suffix [] = same_bytes [] suffix
ends_in suffix (c ∷ text) = same_bytes (c ∷ text) suffix || ends_in suffix text

abbrev pub filename_check : String → Checked Unit
filename_check name = in_turn (
    ensure (is_basename name) not_basename
    ∷ ensure (ends_in (codes ".json") (codes name)) not_json
    ∷ [])

-- `actual["evidence_filename"]`, which `relative_path` has read
abbrev pub evidence_filename_check : List (String × Json) → Checked Unit
evidence_filename_check actual = elim (lookup "evidence_filename" actual) [
  | none ↦ err no_key
  | some value ↦ string_value value >>= filename_check
]

abbrev pub token_at : String → Fields → Checked Unit
token_at key fields = text_at key fields >>= λ text. ensure (fullmatch token_pattern text) bad_token
