-- ===== src/RepositoryTrust/Values.antt =====
-- scripts/repository_trust.py: the validators of single values, which return what they validate.
-- An error is the kind of its message.
use Prim.Native.Nat.{◌%◌}
use yocto_qemu_edu_lab.Common.{
  ℕ, zero, suc, String, member, Bool, true, false, ◌&&◌, ◌||◌, not, ◌+◌, ◌*◌, ◌-◌, none, some, List,
  [], ◌∷◌, if◌then◌else◌, leb, all, drop, codes, Result, ok, err, ◌>>◌, ◌==◌,
}
use yocto_qemu_edu_lab.Json.{pos, Json, null, bool, int, float, str, arr, obj, Fields, keys, get}
use yocto_qemu_edu_lab.Regex.{Regex, seq, one, repeated, up_to, char, fullmatch, alnum, digit}

pub data TrustError : Type 0 where
  not_object unknown_fields missing_fields not_boolean not_integer unsupported not_token :
      TrustError
  not_timestamp not_calendar not_methods bad_method duplicate_methods : TrustError
  not_patterns bad_pattern unsafe_pattern duplicate_patterns not_checks duplicate_contexts :
      TrustError
  bad_policy bad_schema_version bad_name bad_contact bad_identity bad_digest bad_result : TrustError
  not_sorted bad_checks bad_check not_derived unobserved_facts : TrustError
  -- a KeyError, and the TypeError of a value that cannot be an element of a set
  no_key type_error : TrustError

abbrev pub Checked : Type 0 → Type 0
Checked = Result TrustError

abbrev pub require : Bool → TrustError → Checked Unit
require true e = ok tt
require false e = err e

abbrev token_rest : ℕ → Bool
token_rest c = alnum c || c == b'_' || c == b'.' || c == b'-'

abbrev pub token_pattern : Regex
token_pattern = seq (one alnum) (up_to 63 (one token_rest))

abbrev contact_rest : ℕ → Bool
contact_rest c = alnum c || c == b'-'

abbrev pub contact_pattern : Regex
contact_pattern = seq (char b'@') (seq (one alnum) (up_to 38 (one contact_rest)))

abbrev digits : ℕ → Regex
digits n = repeated n (one digit)

abbrev pub timestamp_pattern : Regex
timestamp_pattern = seq (digits 4) (
    seq (char b'-') (
      seq (digits 2) (
        seq (char b'-') (
          seq (digits 2) (
            seq (char b'T') (
              seq (digits 2) (
                seq (char b':')
                  (seq (digits 2) (seq (char b':') (seq (digits 2) (char b'Z')))))))))))

-- the number that `n` digits after the first `from` characters show
abbrev pub number : ℕ → List ℕ → ℕ → ℕ
number zero text total = total
number (suc n) [] total = total
number (suc n) (c ∷ text) total = number n text (total * 10 + (c - 48))

abbrev pub is_leap : ℕ → Bool
is_leap y = (y % 4 == 0) && (not (y % 100 == 0) || y % 400 == 0)

abbrev pub month_days : ℕ → ℕ → ℕ
month_days year month =
    if month == 2
    then (if is_leap year then 29 else 28)
    else if month == 4 || month == 6 || month == 9 || month == 11
    then 30
    else 31

-- `datetime.strptime(value, "%Y-%m-%dT%H:%M:%SZ")` returns, of a text of the pattern
abbrev pub is_calendar : List ℕ → Bool
is_calendar text =
    let year = number 4 text 0 in
    let month = number 2 (drop 5 text) 0 in
    let day = number 2 (drop 8 text) 0 in
    leb 1 year
    && leb 1 month
    && leb month 12
    && leb 1 day
    && leb day (month_days year month)
    && leb (number 2 (drop 11 text) 0) 23
    && leb (number 2 (drop 14 text) 0) 59
    && leb (number 2 (drop 17 text) 0) 59

-- `value[key]`
abbrev pub item_of : String → Fields → Checked Json
item_of key fields = elim (get key fields) [ none ↦ err no_key | some value ↦ ok value ]

unfoldable pub exact_object : Json → List String → List String → Checked Fields
exact_object (obj fields) allowed required =
    require (all (λ k. member k allowed) (keys fields)) unknown_fields
    >> require (all (λ k. member k (keys fields)) required) missing_fields
    >> ok fields
exact_object _ allowed required = err not_object

-- `optional and value is None`
abbrev pub or_null : (Json → Checked Json) → Json → Checked Json
or_null validate null = ok null
or_null validate (bool b) = validate (bool b)
or_null validate (int n) = validate (int n)
or_null validate (float s) = validate (float s)
or_null validate (str s) = validate (str s)
or_null validate (arr vs) = validate (arr vs)
or_null validate (obj fs) = validate (obj fs)

unfoldable pub boolean : Json → Checked Json
boolean (bool b) = ok (bool b)
boolean _ = err not_boolean

-- the minimum is 0 in every call
unfoldable pub integer : ℕ → Json → Checked Json
integer maximum (int (pos n)) = require (leb n maximum) not_integer >> ok (int (pos n))
integer maximum _ = err not_integer

unfoldable pub enum_string : List String → Json → Checked Json
enum_string allowed (str s) = require (member s allowed) unsupported >> ok (str s)
enum_string allowed _ = err unsupported

unfoldable pub token : Json → Checked Json
unfolding fullmatch
token (str s) = require (fullmatch token_pattern s) not_token >> ok (str s)
token _ = err not_token

unfoldable pub timestamp : Json → Checked Json
unfolding fullmatch
timestamp (str s) =
    require (fullmatch timestamp_pattern s) not_timestamp
    >> require (is_calendar (codes s)) not_calendar
    >> ok (str s)
timestamp _ = err not_timestamp
