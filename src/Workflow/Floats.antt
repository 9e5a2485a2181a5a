-- ===== src/Workflow/Floats.antt =====
-- scripts/validate_workflow.py: when Python takes the float of a TOML text for false, which it does
-- of a text that it rounds to zero.
use Prim.Native.Nat.{◌^◌}
use yocto_qemu_edu_lab.Common.{
  ℕ, ◌+◌, ◌-◌, ◌*◌, String, codes, Bool, false, ◌&&◌, ◌||◌, List, [], ◌∷◌, all, leb, ◌==◌,
  if◌then◌else◌,
}

abbrev is_digit : ℕ → Bool
is_digit c = leb 48 c && leb c 57

-- `e` or `E`
abbrev is_exponent : ℕ → Bool
is_exponent c = c == 101 || c == 69

-- a digit, a sign, a point, an underscore, or the mark of an exponent
abbrev is_of_number : ℕ → Bool
is_of_number c = is_digit c || c == 43 || c == 45 || c == 46 || c == 95 || is_exponent c

-- The text as `digits * 10 ^ up / 10 ^ down`, but for its sign.
record Decimal : Type 0 where
  digits : ℕ
  up : ℕ
  down : ℕ

-- the exponent, with the digits after the point in `places`
abbrev read_exponent : ℕ → ℕ → Bool → ℕ → List ℕ → Decimal
read_exponent digits places negative n [] =
    if negative
    then record { digits = digits; up = 0; down = places + n }
    else record { digits = digits; up = n; down = places }
read_exponent digits places negative n (c ∷ text) =
    read_exponent digits places (negative || c == 45) (if is_digit c then n * 10 + (c - 48) else n)
      text

-- the digits so far, those of them that follow the point, and whether it was read
abbrev read_digits : ℕ → ℕ → Bool → List ℕ → Decimal
read_digits digits places after [] = record { digits = digits; up = 0; down = places }
read_digits digits places after (c ∷ text) =
    let exponent = read_exponent digits places false 0 text in
    let rest =
      read_digits (if is_digit c then digits * 10 + (c - 48) else digits)
        (if is_digit c && after then places + 1 else places) (after || c == 46) text in
    if is_exponent c then exponent else rest

-- at most half of the least positive float
abbrev rounds_to_zero : Decimal → Bool
rounds_to_zero d = leb (d.digits * 10 ^ d.up * 2 ^ 1075) (10 ^ d.down)

-- A date, a time, an infinity or a NaN is not zero.
unfoldable pub is_zero : String → Bool
is_zero text = all is_of_number (codes text) && rounds_to_zero (read_digits 0 0 false (codes text))
