-- ===== src/Diagnostics/Patterns.antt =====
-- scripts/diagnostics.py: PROJECT_VERSION and TASK_ID; scripts/lab_config.py: LAB_ID, TOKEN,
-- BUILD_DIRECTORY; and the predicates on single values.
use Prim.Native.String.{count}
use yocto_qemu_edu_lab.Common.{ℕ, String, codes, Bool, ◌&&◌, ◌||◌, all, ltb, leb, ◌==◌}
use yocto_qemu_edu_lab.Regex.{
  Regex, one, seq, alt, star, plus, maybe, repeated, char, literal, digit, lower, upper, alnum, hex,
  fullmatch,
}

abbrev nonzero : ℕ → Bool
nonzero c = leb b'1' c && leb c b'9'

abbrev alnum_dash : ℕ → Bool
alnum_dash c = alnum c || c == b'-'

abbrev letter_dash : ℕ → Bool
letter_dash c = lower c || upper c || c == b'-'

-- 0|[1-9][0-9]*
abbrev numeric : Regex
numeric = alt (char b'0') (seq (one nonzero) (star (one digit)))

-- 0|[1-9][0-9]*|[0-9]*[A-Za-z-][0-9A-Za-z-]*
abbrev prerelease : Regex
prerelease = alt numeric (seq (star (one digit)) (seq (one letter_dash) (star (one alnum_dash))))

abbrev dotted : Regex → Regex
dotted r = seq r (star (seq (char b'.') r))

abbrev pub project_version_pattern : Regex
project_version_pattern = seq numeric (
    seq (char b'.') (
      seq numeric (
        seq (char b'.') (
          seq numeric (
            seq (maybe (seq (char b'-') (dotted prerelease)))
              (maybe (seq (char b'+') (dotted (plus (one alnum_dash))))))))))

abbrev pub task_id_pattern : Regex
task_id_pattern = seq (char b'A') (seq (repeated 3 (one digit)) (star (one digit)))

abbrev lower_digit : ℕ → Bool
lower_digit c = lower c || digit c

abbrev lower_digit_dash : ℕ → Bool
lower_digit_dash c = lower_digit c || c == b'-'

abbrev pub lab_id_pattern : Regex
lab_id_pattern = seq (one lower_digit) (star (one lower_digit_dash))

abbrev token_rest : ℕ → Bool
token_rest c = alnum c || c == b'.' || c == b'_' || c == b'+' || c == b'-'

abbrev pub token_pattern : Regex
token_pattern = seq (one alnum) (star (one token_rest))

abbrev pub build_directory_pattern : Regex
build_directory_pattern = seq (literal (codes "build")) (maybe (seq (char b'-') lab_id_pattern))

-- `str.isascii`
abbrev is_ascii : String → Bool
is_ascii s = all (λ c. ltb c 128) (codes s)

abbrev max_version_bytes : ℕ
max_version_bytes = 128

abbrev max_string_length : ℕ
max_string_length = 4096

unfoldable pub valid_project_version : String → Bool
valid_project_version value =
    is_ascii value
    && ltb 0 (count value)
    && leb (count value) max_version_bytes
    && fullmatch project_version_pattern value

unfoldable pub valid_lab_id : String → Bool
valid_lab_id value =
    ltb 0 (count value) && leb (count value) max_string_length && fullmatch lab_id_pattern value

unfoldable pub valid_token : String → Bool
valid_token value =
    ltb 0 (count value) && leb (count value) max_string_length && fullmatch token_pattern value

unfoldable pub valid_sha : String → ℕ → Bool
valid_sha value n = count value == n && fullmatch (repeated n (one hex)) value

unfoldable pub valid_build_directory : String → Bool
valid_build_directory value =
    ltb 0 (count value)
    && leb (count value) max_string_length
    && fullmatch build_directory_pattern value
