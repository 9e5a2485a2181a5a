-- ===== src/Shape/Unique.antt =====
-- scripts/lab_config.py: the trees that `duplicate_guard` lets pass.
use yocto_qemu_edu_lab.Common.{
  String, member, ◌≡◌, refl, Bool, true, false, ◌&&◌, not, List, [], ◌∷◌, ok, >>=-eq-ok, and-true,
}
use yocto_qemu_edu_lab.Json.{
  Json, null, bool, int, float, str, arr, obj, Items, nil, cons, Fields, end, field,
}
use yocto_qemu_edu_lab.Shape.Parse.{
  ParseError, duplicate_key, permit, duplicate_guard, guarded, guarded_items, guarded_fields,
}

-- none of these keys is among the names, and none is there twice
abbrev pub fresh : List String → Fields → Bool
fresh taken end = true
fresh taken (field k v fs) = not (member k taken) && fresh (k ∷ taken) fs

-- No object of a value has a key twice.
unfoldable mutual
  pub unique : Json → Bool
  unique (arr vs) = unique_items vs
  unique (obj fs) = unique_fields fs && fresh [] fs
  unique _ = true

  pub unique_items : Items → Bool
  unique_items nil = true
  unique_items (cons v vs) = unique v && unique_items vs

  pub unique_fields : Fields → Bool
  unique_fields end = true
  unique_fields (field k v fs) = unique v && unique_fields fs

pub permit-true : (b : Bool) (e : ParseError) {done : Unit {0}} → permit b e ≡ ok done → b ≡ true
permit-true true e h = refl
permit-true false e h = cc

duplicate_guard-fresh :
    (taken : List String) (fs : Fields) {kept : Fields}
    → duplicate_guard taken fs ≡ ok kept
    → (fresh taken fs ≡ true) × (kept ≡ fs)
duplicate_guard-fresh taken end h = (refl, cc)
duplicate_guard-fresh taken (field k v fs) h =
    let (_, new, h1) = >>=-eq-ok (permit (not (member k taken)) duplicate_key) _ h in
    let (rest, later, h2) = >>=-eq-ok (duplicate_guard (k ∷ taken) fs) _ h1 in
    let (free, same) = duplicate_guard-fresh (k ∷ taken) fs later in
    (rw (permit-true _ _ new, free) refl, cc)

duplicate_guard_complete :
    (taken : List String) (fs : Fields) → fresh taken fs ≡ true → duplicate_guard taken fs ≡ ok fs
duplicate_guard_complete taken end h = refl
duplicate_guard_complete taken (field k v fs) h =
    let (new, later) = and-true (not (member k taken)) (fresh (k ∷ taken) fs) h in
    rw (new, duplicate_guard_complete (k ∷ taken) fs later) refl

mutual
  unfolding guarded unique

  pub guarded-unique : (v : Json) {w : Json} → guarded v ≡ ok w → (unique v ≡ true) × (w ≡ v)
  guarded-unique (arr vs) h =
      let (made, inner, h1) = >>=-eq-ok (guarded_items vs) _ h in
      let (one, same) = guarded_items_unique vs inner in (one, cc)
  guarded-unique (obj fs) h =
      let (made, inner, h1) = >>=-eq-ok (guarded_fields fs) _ h in
      let (kept, own, h2) = >>=-eq-ok (duplicate_guard [] made) _ h1 in
      let (one, same) = guarded_fields_unique fs inner in
      let (free, also) = duplicate_guard-fresh [] made own in (rw (one, ← same) free, cc)
  guarded-unique (str s) h = (refl, cc)
  guarded-unique null h = (refl, cc)
  guarded-unique (bool b) h = (refl, cc)
  guarded-unique (int n) h = (refl, cc)
  guarded-unique (float s) h = (refl, cc)

  guarded_items_unique :
      (vs : Items) {ws : Items} → guarded_items vs ≡ ok ws → (unique_items vs ≡ true) × (ws ≡ vs)
  guarded_items_unique nil h = (refl, cc)
  guarded_items_unique (cons v vs) h =
      let (made, inner, h1) = >>=-eq-ok (guarded v) _ h in
      let (rest, later, h2) = >>=-eq-ok (guarded_items vs) _ h1 in
      let (one, same) = guarded-unique v inner in
      let (all_one, all_same) = guarded_items_unique vs later in (rw (one, all_one) refl, cc)

  guarded_fields_unique :
      (fs : Fields) {gs : Fields}
      → guarded_fields fs ≡ ok gs
      → (unique_fields fs ≡ true) × (gs ≡ fs)
  guarded_fields_unique end h = (refl, cc)
  guarded_fields_unique (field k v fs) h =
      let (made, inner, h1) = >>=-eq-ok (guarded v) _ h in
      let (rest, later, h2) = >>=-eq-ok (guarded_fields fs) _ h1 in
      let (one, same) = guarded-unique v inner in
      let (all_one, all_same) = guarded_fields_unique fs later in (rw (one, all_one) refl, cc)

mutual
  unfolding guarded unique

  pub guarded_complete : (v : Json) → unique v ≡ true → guarded v ≡ ok v
  guarded_complete (arr vs) h = rw (guarded_items_complete vs h) refl
  guarded_complete (obj fs) h =
      let (inner, own) = and-true (unique_fields fs) (fresh [] fs) h in
      rw (guarded_fields_complete fs inner, duplicate_guard_complete [] fs own) refl
  guarded_complete (str s) h = refl
  guarded_complete null h = refl
  guarded_complete (bool b) h = refl
  guarded_complete (int n) h = refl
  guarded_complete (float s) h = refl

  guarded_items_complete : (vs : Items) → unique_items vs ≡ true → guarded_items vs ≡ ok vs
  guarded_items_complete nil h = refl
  guarded_items_complete (cons v vs) h =
      let (one, rest) = and-true (unique v) (unique_items vs) h in
      rw (guarded_complete v one, guarded_items_complete vs rest) refl

  guarded_fields_complete : (fs : Fields) → unique_fields fs ≡ true → guarded_fields fs ≡ ok fs
  guarded_fields_complete end h = refl
  guarded_fields_complete (field k v fs) h =
      let (one, rest) = and-true (unique v) (unique_fields fs) h in
      rw (guarded_complete v one, guarded_fields_complete fs rest) refl
