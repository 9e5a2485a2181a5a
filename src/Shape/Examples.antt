-- ===== src/Shape/Examples.antt =====
-- Tests of the walk over a JSON input and of the parser of bounded bytes, and their theorems there.
use yocto_qemu_edu_lab.Common.{
  ℕ, ◌≤◌, String, ◌≡◌, refl, ◌↔◌, ◌≢◌, true, Option, none, some, List, [], ◌∷◌, ok, err,
}
use yocto_qemu_edu_lab.Json.{Json, null, int, pos, str, arr, obj, nil, cons, Fields, end, field}
use yocto_qemu_edu_lab.Shape.Walk.{Shaped, max_json_items, no_fuel, walk, validate_json_shape}
use yocto_qemu_edu_lab.Shape.Weight.{weight, fits}
use yocto_qemu_edu_lab.Shape.Bounds.{validate_json_shape-fits, validate_json_shape-ne}
use yocto_qemu_edu_lab.Shape.Parse.{Parsed, duplicate_key, Loaded, tree, guarded, parse_json_bytes}
use yocto_qemu_edu_lab.Shape.Accepted.{IsBounded, parse_json_bytes-IsBounded}

abbrev sample : Fields
sample = field "id" (str "edu") (field "versions" (arr (cons (int (pos 1)) (cons null nil))) end)

abbrev twice : Fields
twice = field "id" (str "edu") (field "id" null end)

shape : Json → Shaped
unfolding validate_json_shape walk
shape v = validate_json_shape v

sample_fits : shape (obj sample) ≡ ok tt
unfolding shape
sample_fits = refl

sample-weight : weight (obj sample) ≡ 7
unfolding weight
sample-weight = refl

abbrev decode : List ℕ → Option String
decode [] = none
decode (c ∷ raw) = some "text"

abbrev loads : Fields → String → Loaded
loads fields text = tree (obj fields)

abbrev digest : List ℕ → String
digest raw = "00"

parse : Fields → Parsed (Fields × String)
unfolding parse_json_bytes guarded validate_json_shape walk
parse fields = parse_json_bytes decode (loads fields) digest (123 ∷ 125 ∷ [])

sample_parsed : parse sample ≡ ok (sample, "00")
unfolding parse
sample_parsed = refl

twice_refused : parse twice ≡ err duplicate_key
unfolding parse
twice_refused = refl

validate_json_shape-fits_example :
    (validate_json_shape (obj sample) ≡ ok tt)
    ↔ ((weight (obj sample) ≤ max_json_items) × (fits 1 (obj sample) ≡ true))
validate_json_shape-fits_example = validate_json_shape-fits (obj sample)

validate_json_shape-ne_example : validate_json_shape (obj sample) ≢ err no_fuel
validate_json_shape-ne_example = validate_json_shape-ne (obj sample)

parse_json_bytes-IsBounded_example :
    (parse_json_bytes decode (loads sample) digest (123 ∷ 125 ∷ []) ≡ ok (sample, "00"))
    ↔ (IsBounded (loads sample "text") (123 ∷ 125 ∷ []) sample × (◌≡◌ {A = String} "00" "00"))
parse_json_bytes-IsBounded_example =
    parse_json_bytes-IsBounded decode (loads sample) digest (123 ∷ 125 ∷ []) "text" sample "00" refl
