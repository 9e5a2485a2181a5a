-- ===== src/Shape/Accepted.antt =====
-- scripts/lab_config.py: the inputs that `parse_json_bytes` accepts.
use yocto_qemu_edu_lab.Common.{
  inl, inr, ℕ, ◌≤◌, String, ◌≡◌, refl, sym, ap, ◌∙◌, ◌↔◌, true, Option, some, List, length, leb,
  leb→le, arith, ok, err, >>=-eq-ok, Option-cases,
}
use yocto_qemu_edu_lab.Json.{Json, null, bool, int, float, str, arr, obj, Fields}
use yocto_qemu_edu_lab.Shape.Walk.{max_json_items, validate_json_shape, Shaped}
use yocto_qemu_edu_lab.Shape.Weight.{weight, fits}
use yocto_qemu_edu_lab.Shape.Bounds.{validate_json_shape-fits}
use yocto_qemu_edu_lab.Shape.Parse.{
  too_long, permit, built, shaped, root_object, decoded, Loaded, invalid, constant, tree,
  max_json_bytes, parse_json_bytes, Parsed,
}
use yocto_qemu_edu_lab.Shape.Unique.{unique, guarded-unique, guarded_complete, permit-true}

root_object-ok : (v : Json) {fields : Fields} → root_object v ≡ ok fields → v ≡ obj fields
root_object-ok (obj fs) h = cc
root_object-ok null h = cc
root_object-ok (bool b) h = cc
root_object-ok (int n) h = cc
root_object-ok (float s) h = cc
root_object-ok (arr vs) h = cc
root_object-ok (str s) h = cc

built-unique :
    (found : Loaded) {v : Json} → built found ≡ ok v → (found ≡ tree v) × (unique v ≡ true)
built-unique invalid h = absurd cc
built-unique constant h = absurd cc
built-unique (tree u) h = let (one, same) = guarded-unique u h in (ap tree (sym same), rw same one)

shaped-ok : (m : Shaped) {done : Unit {0}} → shaped m ≡ ok done → m ≡ ok tt
shaped-ok (ok tt) h = refl
shaped-ok (err e) h = cc

-- What an input must be to be accepted.
pub record IsBounded (found : Loaded) (raw : List ℕ) (fields : Fields) : Type 0 where
  pub short : length raw ≤ max_json_bytes
  pub read : found ≡ tree (obj fields)
  pub no_duplicate : unique (obj fields) ≡ true
  pub light : weight (obj fields) ≤ max_json_items
  pub shallow : fits 1 (obj fields) ≡ true

module _ (decode : List ℕ → Option String) (loads : String → Loaded)
    (sha256 : List ℕ → String) where
  abbrev decoding : List ℕ → Parsed String
  decoding = decoded decode loads sha256

  decoded-some : (raw : List ℕ) {text : String} → decoding raw ≡ ok text → decode raw ≡ some text
  decoded-some raw h = elim (Option-cases (decode raw)) [ inl absent ↦ cc | inr (t, found) ↦ cc ]

  pub parse_json_bytes_sound :
      (raw : List ℕ) {fields : Fields} {digest : String}
      → parse_json_bytes decode loads sha256 raw ≡ ok (fields, digest)
      → (text : String) × (decode raw ≡ some text)
        × (IsBounded (loads text) raw fields)
        × (digest ≡ sha256 raw)
  unfolding parse_json_bytes
  parse_json_bytes_sound raw {fields} {digest} h =
      let (_, short, h1) = >>=-eq-ok (permit (leb (length raw) max_json_bytes) too_long) _ h in
      let (text, read, h2) = >>=-eq-ok (decoding raw) _ h1 in
      let (value, made, h3) = >>=-eq-ok (built (loads text)) _ h2 in
      let (_, fine, h4) = >>=-eq-ok (shaped (validate_json_shape value)) _ h3 in
      let (found, root, h5) = >>=-eq-ok (root_object value) _ h4 in
      let (tree_of, one) = built-unique (loads text) made in
      let whole = root_object-ok value root in
      let (light, flat) = (validate_json_shape-fits value).0 (shaped-ok _ fine) in
      let same : found ≡ fields = cc in
      let is_obj : value ≡ obj fields = whole ∙ ap obj same in
      (
        text,
        decoded-some raw read,
        record {
          short = leb→le _ _ (permit-true _ _ short);
          read = tree_of ∙ ap tree is_obj;
          no_duplicate = rw is_obj at one;
          light = rw is_obj at light;
          shallow = rw is_obj at flat;
        },
        cc,
      )

  pub parse_json_bytes_complete :
      (raw : List ℕ) (text : String) (fields : Fields)
      → decode raw ≡ some text
      → IsBounded (loads text) raw fields
      → parse_json_bytes decode loads sha256 raw ≡ ok (fields, sha256 raw)
  unfolding parse_json_bytes
  parse_json_bytes_complete raw text fields read b =
      let short : permit (leb (length raw) max_json_bytes) too_long ≡ ok tt =
        ground (arith, b.short) in
      let fine = (validate_json_shape-fits (obj fields)).1 (b.light, b.shallow) in
      let found : decoding raw ≡ ok text = rw (read, decoded) refl in
      rw (short, found, b.read, guarded_complete (obj fields) b.no_duplicate, fine) refl

  -- `parse_json_bytes` returns an object and a digest for an input that decodes exactly when the
  -- input is no longer than 65,536 bytes, reads as that object with no key twice in any object
  -- of it and within the bounds of `_validate_json_shape`, and the digest is that of the input.
  pub parse_json_bytes-IsBounded :
      (raw : List ℕ) (text : String) (fields : Fields) (digest : String)
      → decode raw ≡ some text
      → (parse_json_bytes decode loads sha256 raw ≡ ok (fields, digest))
        ↔ (IsBounded (loads text) raw fields × (digest ≡ sha256 raw))
  parse_json_bytes-IsBounded raw text fields digest read = (
    λ h.
        let (t, decoded_to, b, d) = parse_json_bytes_sound raw h in
        let same : t ≡ text = cc in (rw same at b, d),
    λ (b, d). rw d (parse_json_bytes_complete raw text fields read b),
  )
