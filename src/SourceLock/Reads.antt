-- ===== src/SourceLock/Reads.antt =====
-- scripts/source_lock.py: what the validators of single values have found.
use yocto_qemu_edu_lab.Common.{
  String, member, ◌≡◌, refl, ap, ◌∙◌, Bool, true, false, not, List, [], ◌∷◌, any, All, arith, ok,
  err, ◌>>=◌, ◌>>◌, >>=-eq-ok, Option-cases, inl, inr,
}
use yocto_qemu_edu_lab.Json.{Json, null, bool, int, float, str, arr, obj, Fields, get}
use yocto_qemu_edu_lab.SourceLock.Values.{
  LockError, Checked, require, item_at, string_value, git_ref, relative_path, path_under, is_safe,
  unsafe_ref,
}
use yocto_qemu_edu_lab.SourceLock.Validate.{Seen, overlaps, in_order}
use yocto_qemu_edu_lab.SourceLock.Spec.{text_at, id_of, path_of, is_locked}

pub require-ok : (b : Bool) (e : LockError) {u : Unit} → require b e ≡ ok u → b ≡ true
require-ok true e h = refl
require-ok false e h = cc

pub in_order-ok :
    (checks : List (Checked Unit)) {u : Unit} → in_order checks ≡ ok u → All (λ c. c ≡ ok tt) checks
in_order-ok [] h = tt
in_order-ok (c ∷ cs) h = let (_, first, rest) = >>=-eq-ok c _ h in (first, in_order-ok cs rest)

abbrev pub value_or : {A : Type 0} → A → Checked A → A
value_or default (ok a) = a
value_or default (err e) = default

-- A chain that ends in `ok s`.
ends : {A B : Type 0} (m : Checked A) {s t : B} → (m >> ok s) ≡ ok t → s ≡ t
ends m {s} h = ap (value_or s) ((>>=-eq-ok m (λ done. ok s) h).2)

string_value-ok : (v : Json) {t : String} → string_value v ≡ ok t → v ≡ str t
unfolding string_value
string_value-ok (str s) h = ap str (ends _ h)
string_value-ok null h = cc
string_value-ok (bool b) h = cc
string_value-ok (int n) h = cc
string_value-ok (float s) h = cc
string_value-ok (arr vs) h = cc
string_value-ok (obj fs) h = cc

pub git_ref-ok : (v : Json) (prefix : String) {t : String} → git_ref v prefix ≡ ok t → v ≡ str t
unfolding git_ref
git_ref-ok v prefix h =
    let (s, first, h1) = >>=-eq-ok (string_value v) _ h in
    string_value-ok v first ∙ ap str (ends (require (is_safe prefix s) unsafe_ref) h1)

relative_path-ok : (v : Json) {t : String} → relative_path v ≡ ok t → v ≡ str t
unfolding relative_path
relative_path-ok v h =
    let (s, first, h1) = >>=-eq-ok (string_value v) _ h in
    string_value-ok v first ∙ ap str (ends _ h1)

pub path_under-ok : (name : String) (v : Json) {t : String} → path_under name v ≡ ok t → v ≡ str t
unfolding path_under
path_under-ok name v h =
    let (s, first, h1) = >>=-eq-ok (relative_path v) _ h in
    relative_path-ok v first ∙ ap str (ends _ h1)

-- A value that was read under a key and validated as a text is the text there.
pub at-text :
    (key : String) (fields : Fields) (check : Json → Checked String) {t : String}
    → ((v : Json) (s : String) → check v ≡ ok s → v ≡ str s)
    → (item_at key fields >>= check) ≡ ok t
    → text_at key fields ≡ t
at-text key fields check sure h = elim (Option-cases (get key fields)) [
  | inl absent ↦ cc (rw (absent, ◌>>=◌) at h)
  | inr (w, present) ↦ rw (present, sure w _ (rw (present, ◌>>=◌) at h)) refl
]

pub text-at :
    (key : String) (fields : Fields) {t : String}
    → (item_at key fields >>= string_value) ≡ ok t
    → text_at key fields ≡ t
text-at key fields h = at-text key fields string_value (λ v s. string_value-ok v) h

-- What an accepted source shows.
pub record Accepted (version series : String) (seen left : Seen) (source : Fields) : Type 0 where
  pub new_id : member (id_of source) seen.ids ≡ false
  pub new_path : member (path_of source) seen.paths ≡ false
  pub no_overlap : any (overlaps (path_of source)) seen.paths ≡ false
  pub fine : is_locked version series source ≡ true
  pub ids : left.ids ≡ id_of source ∷ seen.ids
  pub paths : left.paths ≡ path_of source ∷ seen.paths

pub not-true : (b : Bool) → not b ≡ true → b ≡ false
not-true b h = ground arith
