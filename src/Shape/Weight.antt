-- ===== src/Shape/Weight.antt =====
-- What the walk over a JSON value counts and tests, by recursion on the value.
use yocto_qemu_edu_lab.Common.{
  ℕ, suc, ◌+◌, Bool, true, ◌&&◌, [], ◌∷◌, leb, not, any, length, codes, String,
}
use yocto_qemu_edu_lab.Json.{Json, str, arr, obj, Items, nil, cons, Fields, end, field}
use yocto_qemu_edu_lab.Shape.Walk.{Pending, max_json_depth, max_string_length, is_surrogate}

-- The values and keys of a value, itself among them.
unfoldable mutual
  pub weight : Json → ℕ
  weight (arr vs) = suc (weight_items vs)
  weight (obj fs) = suc (weight_fields fs)
  weight _ = 1

  pub weight_items : Items → ℕ
  weight_items nil = 0
  weight_items (cons v vs) = weight v + weight_items vs

  pub weight_fields : Fields → ℕ
  weight_fields end = 0
  weight_fields (field k v fs) = suc (weight v + weight_fields fs)

-- No longer than the bound, and without a surrogate.
abbrev pub is_text : String → Bool
is_text text = leb (length (codes text)) max_string_length && not (any is_surrogate (codes text))

-- Every value below a value at this depth lies within the bound on the depth, and every text and
-- every key is one.
unfoldable mutual
  pub fits : ℕ → Json → Bool
  fits d (str text) = leb d max_json_depth && is_text text
  fits d (arr vs) = leb d max_json_depth && fits_items (d + 1) vs
  fits d (obj fs) = leb d max_json_depth && fits_fields (d + 1) fs
  fits d _ = leb d max_json_depth

  pub fits_items : ℕ → Items → Bool
  fits_items d nil = true
  fits_items d (cons v vs) = fits d v && fits_items d vs

  pub fits_fields : ℕ → Fields → Bool
  fits_fields d end = true
  fits_fields d (field k v fs) = leb d max_json_depth && is_text k && fits d v && fits_fields d fs

-- the same of a stack
unfoldable pub total : Pending → ℕ
total [] = 0
total ((v, d) ∷ pending) = weight v + total pending

unfoldable pub all_fit : Pending → Bool
all_fit [] = true
all_fit ((v, d) ∷ pending) = fits d v && all_fit pending
