-- ===== src/Regex.antt =====
-- `re.fullmatch` for the patterns of the scripts, which use only classes, sequence, choice and
-- repetition: by derivatives. `Regex.Language` has the language that a pattern denotes.
pub mod Language
use yocto_qemu_edu_lab.Common.{
  ℕ, zero, suc, Bool, true, false, ◌&&◌, ◌||◌, List, [], ◌∷◌, String, codes, if◌then◌else◌, ◌==◌,
  leb,
}

pub data Regex : Type 0 where
  never empty : Regex
  one : (ℕ → Bool) → Regex
  seq : Regex → Regex → Regex
  alt : Regex → Regex → Regex
  star : Regex → Regex

unfoldable pub is_nullable : Regex → Bool
is_nullable never = false
is_nullable empty = true
is_nullable (one p) = false
is_nullable (seq r s) = is_nullable r && is_nullable s
is_nullable (alt r s) = is_nullable r || is_nullable s
is_nullable (star r) = true

-- sequence and choice that drop what can never match
unfoldable pub then_ : Regex → Regex → Regex
then_ never s = never
then_ empty s = s
then_ r s = seq r s

unfoldable pub or_ : Regex → Regex → Regex
or_ never s = s
or_ r never = r
or_ r s = alt r s

unfoldable pub derivative : ℕ → Regex → Regex
derivative c never = never
derivative c empty = never
derivative c (one p) = if p c then empty else never
derivative c (seq r s) =
    or_ (then_ (derivative c r) s) (if is_nullable r then derivative c s else never)
derivative c (alt r s) = or_ (derivative c r) (derivative c s)
derivative c (star r) = then_ (derivative c r) (star r)

unfoldable pub matches : Regex → List ℕ → Bool
unfolding derivative is_nullable then_ or_
matches r [] = is_nullable r
matches r (c ∷ s) = matches (derivative c r) s

unfoldable pub fullmatch : Regex → String → Bool
unfolding matches
fullmatch r s = matches r (codes s)

-- Notation for the patterns.
abbrev pub plus : Regex → Regex
plus r = seq r (star r)

abbrev pub maybe : Regex → Regex
maybe r = alt empty r

abbrev pub repeated : ℕ → Regex → Regex
repeated zero r = empty
repeated (suc n) r = seq r (repeated n r)

-- at most `n` times
abbrev pub up_to : ℕ → Regex → Regex
up_to zero r = empty
up_to (suc n) r = alt empty (seq r (up_to n r))

abbrev pub char : ℕ → Regex
char c = one (λ x. x == c)

abbrev pub literal : List ℕ → Regex
literal [] = empty
literal (c ∷ s) = seq (char c) (literal s)

abbrev pub digit : ℕ → Bool
digit c = leb b'0' c && leb c b'9'

abbrev pub lower : ℕ → Bool
lower c = leb b'a' c && leb c b'z'

abbrev pub upper : ℕ → Bool
upper c = leb b'A' c && leb c b'Z'

abbrev pub alnum : ℕ → Bool
alnum c = digit c || lower c || upper c

abbrev pub hex : ℕ → Bool
hex c = digit c || leb b'a' c && leb c b'f'
