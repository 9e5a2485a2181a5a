-- ===== src/Shape/Walk.antt =====
-- scripts/source_lock.py: `_validate_json_shape`, a loop over a stack of pending values, of which
-- scripts/lab_config.py has a copy.
use yocto_qemu_edu_lab.Common.{
  ℕ, zero, suc, ◌+◌, String, Bool, true, false, ◌&&◌, not, List, [], ◌∷◌, leb, length, any, codes,
  Result, ok, err, ◌>>=◌,
}
use yocto_qemu_edu_lab.Json.{Json, str, arr, obj, Items, nil, cons, Fields, end, field}

pub data ShapeError : Type 0 where
  too_many too_deep long_string has_surrogate : ShapeError
  -- the bound on the rounds of the model, which the program does not have
  no_fuel : ShapeError

abbrev pub Shaped : Type 0
Shaped = Result ShapeError Unit

abbrev pub max_json_items : ℕ
max_json_items = 100_000

abbrev pub max_json_depth : ℕ
max_json_depth = 64

abbrev pub max_string_length : ℕ
max_string_length = 4096

-- `0xD800 <= ord(character) <= 0xDFFF`
abbrev pub is_surrogate : ℕ → Bool
is_surrogate c = leb 55296 c && leb c 57343

-- raise, unless the test holds
abbrev pub demand : Bool → ShapeError → Shaped
demand true e = ok tt
demand false e = err e

abbrev pub check_string : String → Shaped
check_string text = demand (leb (length (codes text)) max_string_length) long_string >>= λ short.
    demand (not (any is_surrogate (codes text))) has_surrogate

abbrev pub check_value : Json → Shaped
check_value (str text) = check_string text
check_value _ = ok tt

-- The value that is popped next stands first.
abbrev pub Pending : Type 0
Pending = List (Json × ℕ)

-- `pending.extend((item, depth) for item in ...)`
abbrev pub extend_items : Items → ℕ → Pending → Pending
extend_items nil depth pending = pending
extend_items (cons v vs) depth pending = extend_items vs depth ((v, depth) ∷ pending)

abbrev pub extend_keys : Fields → ℕ → Pending → Pending
extend_keys end depth pending = pending
extend_keys (field k v fs) depth pending = extend_keys fs depth ((str k, depth) ∷ pending)

abbrev pub extend_values : Fields → ℕ → Pending → Pending
extend_values end depth pending = pending
extend_values (field k v fs) depth pending = extend_values fs depth ((v, depth) ∷ pending)

abbrev pub extend : Json → ℕ → Pending → Pending
extend (obj fs) depth pending = extend_values fs depth (extend_keys fs depth pending)
extend (arr vs) depth pending = extend_items vs depth pending
extend _ depth pending = pending

-- the tests on one popped value, which is the `items`-th
abbrev pub visit : ℕ → Json → ℕ → Shaped
visit items current depth = demand (leb items max_json_items) too_many >>= λ few.
    demand (leb depth max_json_depth) too_deep >>= λ flat. check_value current

unfoldable pub walk : ℕ → ℕ → Pending → Shaped
walk fuel items [] = ok tt
walk zero items (p ∷ pending) = err no_fuel
walk (suc fuel) items ((current, depth) ∷ pending) = visit (items + 1) current depth >>= λ fine.
    walk fuel (items + 1) (extend current (depth + 1) pending)

-- Each round counts one item, so one round more than the items that are allowed will do.
unfoldable pub validate_json_shape : Json → Shaped
unfolding walk
validate_json_shape value = walk (suc max_json_items) 0 ((value, 1) ∷ [])
