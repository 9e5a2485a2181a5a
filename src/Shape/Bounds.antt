-- ===== src/Shape/Bounds.antt =====
-- scripts/source_lock.py: `_validate_json_shape` against the recursive measures of a value.
mod Extend
use yocto_qemu_edu_lab.Common.{
  ℕ, zero, suc, ◌+◌, ◌≤◌, ◌<◌, ◌≡◌, refl, ◌≢◌, ◌↔◌, String, Bool, true, false, ◌&&◌, not, List, [],
  ◌∷◌, leb, leb→le, le→leb, length, any, codes, arith, ok, err, >>=-eq-ok, and-true, Bool-cases,
}
use yocto_qemu_edu_lab.Json.{Json, null, bool, int, float, str, arr, obj}
use yocto_qemu_edu_lab.Shape.Walk.{
  Shaped, no_fuel, Pending, max_json_items, max_json_depth, check_string, check_value, visit,
  extend, walk, validate_json_shape,
}
use yocto_qemu_edu_lab.Shape.Weight.{weight, fits, total, all_fit, is_text}
use yocto_qemu_edu_lab.Shape.Bounds.Extend.{own, total-extend, all_fit-extend}

-- The test of a string is the predicate.
check_string-is_text : (text : String) → (check_string text ≡ ok tt) ↔ (is_text text ≡ true)
check_string-is_text text = ground arith

check_value-own : (v : Json) → (check_value v ≡ ok tt) ↔ (own v ≡ true)
check_value-own (str s) = check_string-is_text s
check_value-own null = ground arith
check_value-own (bool b) = ground arith
check_value-own (int n) = ground arith
check_value-own (float s) = ground arith
check_value-own (arr vs) = ground arith
check_value-own (obj fs) = ground arith

check_value-ne : (v : Json) → check_value v ≢ err no_fuel
check_value-ne (str s) h = ground arith
check_value-ne null h = cc
check_value-ne (bool b) h = cc
check_value-ne (int n) h = cc
check_value-ne (float s) h = cc
check_value-ne (arr vs) h = cc
check_value-ne (obj fs) h = cc

visit-ok :
    (n : ℕ) (v : Json) (d : ℕ)
    → visit n v d ≡ ok tt
    → (n ≤ max_json_items) × ((leb d max_json_depth && own v) ≡ true)
visit-ok n v d h = ground (arith, check_value-own v)

visit_complete :
    (n : ℕ) (v : Json) (d : ℕ)
    → n ≤ max_json_items
    → (leb d max_json_depth && own v) ≡ true
    → visit n v d ≡ ok tt
visit_complete n v d h k = ground (arith, check_value-own v)

visit-ne : (n : ℕ) (v : Json) (d : ℕ) → visit n v d ≢ err no_fuel
visit-ne n v d h = ground (arith, check_value-ne v)

walk-fits :
    (fuel n : ℕ) (pending : Pending)
    → n ≤ max_json_items
    → walk fuel n pending ≡ ok tt
    → (n + total pending ≤ max_json_items) × (all_fit pending ≡ true)
unfolding walk total all_fit
walk-fits fuel n [] small h = (omega arith, refl)
walk-fits zero n (p ∷ pending) small h = cc
walk-fits (suc fuel) n ((v, d) ∷ pending) small h =
    let (_, seen, rest) = >>=-eq-ok (visit (n + 1) v d) _ h in
    let (few, mine) = visit-ok (n + 1) v d seen in
    let (light, others) = walk-fits fuel (n + 1) (extend v (d + 1) pending) few rest in
    (omega (arith, total-extend v (d + 1) pending), ground (arith, all_fit-extend v d pending))

walk_complete :
    (fuel n : ℕ) (pending : Pending)
    → n + total pending ≤ max_json_items
    → total pending ≤ fuel
    → all_fit pending ≡ true
    → walk fuel n pending ≡ ok tt
unfolding walk total all_fit
walk_complete fuel n [] light enough h = refl
walk_complete zero n ((v, d) ∷ pending) light enough h =
    absurd (omega (arith, total-extend v d pending))
walk_complete (suc fuel) n ((v, d) ∷ pending) light enough h =
    let (mine, others) =
      and-true (leb d max_json_depth && own v) (all_fit (extend v (d + 1) pending))
        (rw (all_fit-extend v d pending) h) in
    let more = total-extend v (d + 1) pending in
    rw (visit_complete (n + 1) v d (omega arith) mine)
      (walk_complete fuel (n + 1) (extend v (d + 1) pending) (omega arith) (omega arith) others)

walk-ne :
    (fuel n : ℕ) (pending : Pending)
    → n ≤ max_json_items
    → max_json_items < n + fuel
    → walk fuel n pending ≢ err no_fuel
unfolding walk
walk-ne fuel n [] small enough h = cc
walk-ne zero n (p ∷ pending) small enough h = absurd (omega arith)
walk-ne (suc fuel) n ((v, d) ∷ pending) small enough h =
    let rest = walk-ne fuel (n + 1) (extend v (d + 1) pending) in
    ground (arith, visit-ne (n + 1) v d, visit-ok (n + 1) v d, rest)

walk-start :
    (fuel : ℕ) (v : Json)
    → max_json_items ≤ fuel
    → (walk fuel 0 ((v, 1) ∷ []) ≡ ok tt) ↔ ((weight v ≤ max_json_items) × (fits 1 v ≡ true))
unfolding total all_fit
walk-start fuel v enough = (
  λ h.
      let (light, good) = walk-fits fuel 0 ((v, 1) ∷ []) (omega arith) h in
      (omega arith, (and-true (fits 1 v) true good).0),
  λ (light, good). walk_complete fuel 0 ((v, 1) ∷ []) (omega arith) (omega arith) (rw good refl),
)

-- `_validate_json_shape` returns for a value exactly when the value and all its members and keys
-- are at most 100,000, none of them lies deeper than 64, and no text or key among them is longer
-- than 4096 characters or holds a surrogate.
pub validate_json_shape-fits :
    (value : Json)
    → (validate_json_shape value ≡ ok tt)
      ↔ ((weight value ≤ max_json_items) × (fits 1 value ≡ true))
unfolding validate_json_shape
validate_json_shape-fits value = walk-start (suc max_json_items) value (omega arith)

-- The walk over a value ends for every value: the rounds that the model allows are enough.
pub validate_json_shape-ne : (value : Json) → validate_json_shape value ≢ err no_fuel
unfolding validate_json_shape
validate_json_shape-ne value =
    walk-ne (suc max_json_items) 0 ((value, 1) ∷ []) (omega arith) (omega arith)
