-- ===== src/SourceLock/Locked.antt =====
-- scripts/source_lock.py: the locks that `validate_lock` accepts.
use text.Mathlib.TextPositions.{eq_refl}
use yocto_qemu_edu_lab.Common.{
  String, eq_iff, member, ◌≡◌, refl, sym, ap, ◌∙◌, Bool, true, false, ◌||◌, Option, some, List, [],
  ◌∷◌, map, all, arith, ok, ◌>>=◌, >>=-eq-ok, and-true,
}
use yocto_qemu_edu_lab.Json.{Json, null, bool, int, float, str, arr, obj, Items, Fields, items, get}
use yocto_qemu_edu_lab.SourceLock.Values.{
  object_value, string_value, item_at, exact_keys, root_keys, release_keys, require, source_ids,
  bad_version, bad_project, Checked,
}
use yocto_qemu_edu_lab.SourceLock.Validate.{
  Url, Seen, validate_sources, validate_release, validate_build, validate_lock, release_names,
  token_fields, equals, is_version, source_values, at_least_one, is_source_set,
}
use yocto_qemu_edu_lab.SourceLock.Spec.{text_at, id_of, locked}
use yocto_qemu_edu_lab.SourceLock.Sources.{at-get}
use yocto_qemu_edu_lab.SourceLock.Reads.{require-ok, text-at, value_or}
use yocto_qemu_edu_lab.SourceLock.Loop.{Read, validate_sources-Read, object_value-ok}

release_names-ok :
    (release : Fields) {names : String × String}
    → release_names release ≡ ok names
    → (text_at "version" release ≡ names.0) × (text_at "series" release ≡ names.1)
release_names-ok release {names} h =
    let (version, v, h1) = >>=-eq-ok (item_at "version" release >>= string_value) _ h in
    let (series, s, h2) = >>=-eq-ok (item_at "series" release >>= string_value) _ h1 in
    let made = ap (value_or names) h2 in
    (
      text-at "version" release v ∙ ap (λ p. p.0) made,
      text-at "series" release s ∙ ap (λ p. p.1) made,
    )

validate_release-ok :
    (value : Json) {names : String × String}
    → validate_release value ≡ ok names
    → (release : Fields) × (value ≡ obj release)
      × (text_at "version" release ≡ names.0)
      × (text_at "series" release ≡ names.1)
unfolding validate_release
validate_release-ok value h =
    let (release, opened, h1) = >>=-eq-ok (object_value value) _ h in
    let (_, _, h2) = >>=-eq-ok (exact_keys release release_keys) _ h1 in
    let (_, _, h3) = >>=-eq-ok (token_fields release_keys release) _ h2 in
    let (_, _, h4) =
      >>=-eq-ok
        (item_at "project" release >>= (λ project. require (equals project "yocto") bad_project)) _
        h3 in
    let (version, series) = release_names-ok release h4 in
    (release, object_value-ok value opened, version, series)

at_least_one-ok :
    (read : List Json) {values : List Json} → at_least_one read ≡ ok values → read ≡ values
at_least_one-ok [] h = cc
at_least_one-ok (v ∷ vs) h = ap (value_or []) h

source_values-ok :
    (value : Json) {values : List Json}
    → source_values value ≡ ok values
    → (read : Items) × (value ≡ arr read) × (items read ≡ values)
source_values-ok (arr vs) h = (vs, refl, at_least_one-ok (items vs) h)
source_values-ok null h = cc
source_values-ok (bool b) h = cc
source_values-ok (int n) h = cc
source_values-ok (float s) h = cc
source_values-ok (str s) h = cc
source_values-ok (obj fs) h = cc

-- a chain that reads an item and validates it
item-ok :
    {A : Type 0} (key : String) (fields : Fields) (check : Json → Checked A) {a : A}
    → (item_at key fields >>= check) ≡ ok a
    → (v : Json) × (get key fields ≡ some v) × (check v ≡ ok a)
item-ok key fields check h =
    let (v, read, checked) = >>=-eq-ok (item_at key fields) check h in
    (v, at-get key fields read, checked)

all-member :
    (p : String → Bool) (xs : List String) (i : String)
    → all p xs ≡ true
    → member i xs ≡ true
    → p i ≡ true
all-member p [] i h m = cc
all-member p (x ∷ xs) i h m = ground (arith, eq_iff i x, all-member p xs i)

members-all :
    (p q : String → Bool) (xs : List String)
    → ((i : String) → q i ≡ true → p i ≡ true)
    → all q xs ≡ true
    → all p xs ≡ true
members-all p q [] f h = refl
members-all p q (x ∷ xs) f h =
    let (here, later) = and-true _ _ h in rw (f x here, members-all p q xs f later) refl

all_self : (xs : List String) → all (λ i. member i xs) xs ≡ true
all_self [] = refl
all_self (x ∷ xs) =
    let later =
      members-all (λ i. member i (x ∷ xs)) (λ i. member i xs) xs (λ i h. ground (arith, h))
        (all_self xs) in
    rw (eq_refl x, later) refl

abbrev nothing : Seen
nothing = record { ids = []; paths = [] }

or-none : (b : Bool) → (b || false) ≡ b
or-none true = refl
or-none false = refl

Read-locked :
    (version series : String) (values : List Json) (left : Seen)
    (r : Read version series values nothing left)
    → is_source_set left.ids ≡ true
    → locked version series r.sources ≡ true
unfolding locked
Read-locked version series values left r h =
    let (within, whole) = and-true _ _ h in
    let ids = map id_of r.sources in
    let inside : (i : String) → member i left.ids ≡ member i ids =
      λ i. r.among i ∙ or-none (member i ids) in
    let known =
      members-all (λ i. member i source_ids) (λ i. member i ids) ids
        (λ i m. all-member (λ j. member j source_ids) left.ids i within (inside i ∙ m))
        (all_self ids) in
    let complete =
      members-all (λ i. member i ids) (λ i. member i left.ids) source_ids
        (λ i m. sym (inside i) ∙ m) whole in
    rw (r.separate, known, complete, r.separate_paths, r.fine) refl

-- When `validate_lock` accepts a lock, its sources are objects whose ids are the three of the
-- schema, each once, whose paths are distinct and none below another, and each of which has the
-- upstream URL of its id, the tag of the release of the lock, a full commit and, but for bitbake,
-- the branch of the series of the lock.
pub validate_lock-locked :
    (urlsplit : String → Option Url) (lock : Fields)
    → validate_lock urlsplit lock ≡ ok tt
    → (release : Fields) × (values : Items) × (sources : List Fields) × (get "release" lock
        ≡ some (obj release))
      × (get "sources" lock ≡ some (arr values))
      × (items values ≡ map obj sources)
      × (locked (text_at "version" release) (text_at "series" release) sources ≡ true)
unfolding validate_lock
validate_lock-locked urlsplit lock h =
    let version_check = λ (version : Json). require (is_version version) bad_version in
    let (_, _, h1) = >>=-eq-ok (exact_keys lock root_keys) _ h in
    let (_, _, h2) = >>=-eq-ok (item_at "schema_version" lock >>= version_check) _ h1 in
    let (names, released, h3) = >>=-eq-ok (item_at "release" lock >>= validate_release) _ h2 in
    let (_, _, h4) = >>=-eq-ok (item_at "build" lock >>= validate_build) _ h3 in
    let (values, listed, h5) = >>=-eq-ok (item_at "sources" lock >>= source_values) _ h4 in
    let (left, looped, last) =
      >>=-eq-ok (validate_sources urlsplit names.0 names.1 values nothing) _ h5 in
    let (release_value, release_at, release_fine) =
      item-ok "release" lock validate_release released in
    let (release, opened, version, series) = validate_release-ok release_value release_fine in
    let (value, sources_at, values_fine) = item-ok "sources" lock source_values listed in
    let (read, is_array, same) = source_values-ok value values_fine in
    let r = validate_sources-Read urlsplit names.0 names.1 values nothing looped in
    let fine = Read-locked names.0 names.1 values left r (require-ok _ _ last) in
    (
      release,
      read,
      r.sources,
      release_at ∙ ap some opened,
      sources_at ∙ ap some is_array,
      same ∙ r.made,
      rw (version, series) fine,
    )
