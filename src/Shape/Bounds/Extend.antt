-- ===== src/Shape/Bounds/Extend.antt =====
-- scripts/source_lock.py: the measures of a stack to which a value's members are added.
use yocto_qemu_edu_lab.Common.{ℕ, suc, ◌+◌, ◌≡◌, refl, ◌∙◌, Bool, true, ◌&&◌, ◌∷◌, leb, arith}
use yocto_qemu_edu_lab.Json.{
  Json, null, bool, int, float, str, arr, obj, Items, nil, cons, Fields, end, field,
}
use yocto_qemu_edu_lab.Shape.Walk.{
  Pending, max_json_depth, extend_items, extend_keys, extend_values, extend,
}
use yocto_qemu_edu_lab.Shape.Weight.{
  weight, weight_items, weight_fields, fits, fits_items, fits_fields, is_text, total, all_fit,
}

-- what is tested of a value apart from its members
abbrev pub own : Json → Bool
own (str text) = is_text text
own _ = true

total-extend_items :
    (vs : Items) (d : ℕ) (p : Pending) → total (extend_items vs d p) ≡ weight_items vs + total p
unfolding total weight
total-extend_items nil d p = omega arith
total-extend_items (cons v vs) d p = omega (arith, total-extend_items vs d ((v, d) ∷ p))

total-extend_fields :
    (fs : Fields) (d : ℕ) (p q : Pending)
    → total (extend_keys fs d p) + total (extend_values fs d q)
      ≡ weight_fields fs + total p + total q
unfolding total weight
total-extend_fields end d p q = omega arith
total-extend_fields (field k v fs) d p q =
    omega (arith, total-extend_fields fs d ((str k, d) ∷ p) ((v, d) ∷ q))

pub total-extend :
    (v : Json) (d : ℕ) (p : Pending) → suc (total (extend v d p)) ≡ weight v + total p
unfolding weight
total-extend (obj fs) d p = omega (arith, total-extend_fields fs d p (extend_keys fs d p))
total-extend (arr vs) d p = omega (arith, total-extend_items vs d p)
total-extend (str s) d p = omega arith
total-extend null d p = omega arith
total-extend (bool b) d p = omega arith
total-extend (int n) d p = omega arith
total-extend (float s) d p = omega arith

fits_keys : ℕ → Fields → Bool
fits_keys d end = true
fits_keys d (field k v fs) = leb d max_json_depth && is_text k && fits_keys d fs

fits_values : ℕ → Fields → Bool
fits_values d end = true
fits_values d (field k v fs) = fits d v && fits_values d fs

regroup : (l t v a b : Bool) → (l && t && v && (a && b)) ≡ (v && a && (l && t && b))
regroup l t v a b = ground arith

swap_and : (a b c : Bool) → (a && (b && c)) ≡ (b && a && c)
swap_and a b c = ground arith

fits_fields-split : (d : ℕ) (fs : Fields) → fits_fields d fs ≡ (fits_values d fs && fits_keys d fs)
unfolding fits fits_keys fits_values
fits_fields-split d end = refl
fits_fields-split d (field k v fs) =
    rw (fits_fields-split d fs)
      (regroup (leb d max_json_depth) (is_text k) (fits d v) (fits_values d fs) (fits_keys d fs))

all_fit-extend_items :
    (vs : Items) (d : ℕ) (p : Pending)
    → all_fit (extend_items vs d p) ≡ (fits_items d vs && all_fit p)
unfolding all_fit fits
all_fit-extend_items nil d p = refl
all_fit-extend_items (cons v vs) d p =
    all_fit-extend_items vs d ((v, d) ∷ p) ∙ swap_and (fits_items d vs) (fits d v) (all_fit p)

all_fit-extend_keys :
    (fs : Fields) (d : ℕ) (p : Pending)
    → all_fit (extend_keys fs d p) ≡ (fits_keys d fs && all_fit p)
unfolding all_fit fits fits_keys
all_fit-extend_keys end d p = refl
all_fit-extend_keys (field k v fs) d p = ground (arith, all_fit-extend_keys fs d ((str k, d) ∷ p))

all_fit-extend_values :
    (fs : Fields) (d : ℕ) (p : Pending)
    → all_fit (extend_values fs d p) ≡ (fits_values d fs && all_fit p)
unfolding all_fit fits_values
all_fit-extend_values end d p = refl
all_fit-extend_values (field k v fs) d p = ground (arith, all_fit-extend_values fs d ((v, d) ∷ p))

pub all_fit-extend :
    (v : Json) (d : ℕ) (p : Pending)
    → (leb d max_json_depth && own v && all_fit (extend v (d + 1) p)) ≡ (fits d v && all_fit p)
unfolding fits
all_fit-extend (obj fs) d p = ground (
  arith,
  all_fit-extend_values fs (d + 1) (extend_keys fs (d + 1) p),
  all_fit-extend_keys fs (d + 1) p,
  fits_fields-split (d + 1) fs,
)
all_fit-extend (arr vs) d p = ground (arith, all_fit-extend_items vs (d + 1) p)
all_fit-extend (str s) d p = ground arith
all_fit-extend null d p = ground arith
all_fit-extend (bool b) d p = ground arith
all_fit-extend (int n) d p = ground arith
all_fit-extend (float s) d p = ground arith
