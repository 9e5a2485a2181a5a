-- ===== src/SourceLock/Sources.antt =====
-- scripts/source_lock.py: what the checks on one source have found.
use yocto_qemu_edu_lab.Common.{
  String, str_eq, member, lookup, ◌≡◌, refl, sym, ap, subst, ◌∙◌, true, false, ◌||◌, Option, some,
  ◌∷◌, any, ok, ◌>>=◌, >>=-eq-ok, Option-cases, inl, inr,
}
use yocto_qemu_edu_lab.Json.{Json, null, bool, int, float, str, arr, obj, Fields, get}
use yocto_qemu_edu_lab.Regex.{fullmatch}
use yocto_qemu_edu_lab.SourceLock.Values.{
  require, item_at, exact_keys, string_value, source_keys, git_ref, path_under, source_urls,
  commit_pattern, bad_url, other_url,
}
use yocto_qemu_edu_lab.SourceLock.Validate.{
  Url, Seen, validate_source, overlaps, validate_url, is_https, ◌▸◌, in_order, read_id, read_path,
  source_checks, path_checks, branch_check, release_check, commit_check, url_check, is_source_url,
  equals,
}
use yocto_qemu_edu_lab.SourceLock.Spec.{text_at, id_of, path_of, is_locked, has_url, text_of}
use yocto_qemu_edu_lab.SourceLock.Reads.{
  require-ok, in_order-ok, value_or, git_ref-ok, path_under-ok, at-text, text-at, Accepted,
  not-true,
}

path_checks-ok :
    (seen : Seen) (path : String) (source : Fields)
    → in_order (path_checks seen path source) ≡ ok tt
    → (member path seen.paths ≡ false) × (any (overlaps path) seen.paths ≡ false)
path_checks-ok seen path source h =
    let (new, (separate, _)) = in_order-ok (path_checks seen path source) h in
    (
      not-true (member path seen.paths) (require-ok _ _ new),
      not-true (any (overlaps path) seen.paths) (require-ok _ _ separate),
    )

branch_check-ok :
    (series : String) (source : Fields)
    → branch_check series (id_of source) source ≡ ok tt
    → (str_eq (id_of source) "bitbake"
        || str_eq (text_at "branch_ref" source) ("refs/heads/" ▸ series))
      ≡ true
branch_check-ok series source h =
    let check = λ (value : Json). git_ref value "refs/heads/" in
    let (branch, read, h1) = >>=-eq-ok (item_at "branch_ref" source >>= check) _ h in
    let branch_is = at-text "branch_ref" source check (λ v s. git_ref-ok v "refs/heads/") read in
    rw branch_is (require-ok _ _ h1)

release_check-ok :
    (version : String) (source : Fields)
    → release_check version source ≡ ok tt
    → str_eq (text_at "release_ref" source) ("refs/tags/yocto-" ▸ version) ≡ true
release_check-ok version source h =
    let check = λ (value : Json). git_ref value "refs/tags/" in
    let (tag, read, h1) = >>=-eq-ok (item_at "release_ref" source >>= check) _ h in
    let tag_is = at-text "release_ref" source check (λ v s. git_ref-ok v "refs/tags/") read in
    rw tag_is (require-ok _ _ h1)

commit_check-ok :
    (source : Fields)
    → commit_check source ≡ ok tt
    → fullmatch commit_pattern (text_at "commit" source) ≡ true
commit_check-ok source h =
    let (commit, read, h1) = >>=-eq-ok (item_at "commit" source >>= string_value) _ h in
    subst (λ s. fullmatch commit_pattern s ≡ true) (sym (text-at "commit" source read))
      (require-ok _ _ h1)

pub at-get :
    (key : String) (fields : Fields) {v : Json}
    → item_at key fields ≡ ok v
    → get key fields ≡ some v
at-get key fields h = elim (Option-cases (get key fields)) [
  | inl absent ↦ cc (rw (absent, item_at) at h)
  | inr (w, present) ↦ cc (present, rw (present, item_at) at h)
]

equals-of :
    (v : Json) (o : Option Json) (t : String)
    → o ≡ some v
    → equals v t ≡ true
    → str_eq (text_of o) t ≡ true
equals-of (str s) o t h e = rw h e
equals-of null o t h e = cc
equals-of (bool b) o t h e = cc
equals-of (int n) o t h e = cc
equals-of (float s) o t h e = cc
equals-of (arr vs) o t h e = cc
equals-of (obj fs) o t h e = cc

-- a text under a key is what is there
equals-text :
    (key : String) (fields : Fields) (v : Json) (t : String)
    → item_at key fields ≡ ok v
    → equals v t ≡ true
    → str_eq (text_at key fields) t ≡ true
equals-text key fields v t h e = equals-of v (get key fields) t (at-get key fields h) e

source_url-ok :
    (i : String) (source : Fields) (value : Json)
    → item_at "url" source ≡ ok value
    → is_source_url i value ≡ true
    → has_url i source ≡ true
source_url-ok i source value read h = elim (Option-cases (lookup i source_urls)) [
  | inl absent ↦ cc (rw (absent, is_source_url) at h)
  | inr (url, present) ↦
      rw present (equals-text "url" source value url read (rw (present, is_source_url) at h))
]

url_check-ok :
    (urlsplit : String → Option Url) (i : String) (source : Fields)
    → url_check urlsplit i source ≡ ok tt
    → has_url i source ≡ true
url_check-ok urlsplit i source h =
    let (value, read, h1) = >>=-eq-ok (item_at "url" source) (validate_url urlsplit i) h in
    let (text, _, h2) = >>=-eq-ok (string_value value) _ h1 in
    elim (Option-cases (urlsplit text)) [
      | inl absent ↦ cc (rw absent at h2)
      | inr (url, present) ↦
          let parts = rw present at h2 in
          let (_, _, last) =
            >>=-eq-ok (require (is_https url) bad_url)
              (λ done. require (is_source_url i value) other_url) parts in
          source_url-ok i source value read (require-ok _ _ last)
    ]

source_checks-ok :
    (urlsplit : String → Option Url) (version series : String) (seen : Seen) (source : Fields)
    → in_order (source_checks urlsplit version series seen (id_of source) source) ≡ ok tt
    → (member (id_of source) seen.ids ≡ false) × (is_locked version series source ≡ true)
source_checks-ok urlsplit version series seen source h =
    let checks = source_checks urlsplit version series seen (id_of source) source in
    let (_, (new, (_, (url, (branch, (release, (_, (commit, _)))))))) = in_order-ok checks h in
    (
      not-true (member (id_of source) seen.ids) (require-ok _ _ new),
      rw
          (
            url_check-ok urlsplit (id_of source) source url,
            branch_check-ok series source branch,
            release_check-ok version source release,
            commit_check-ok source commit,
          )
          refl,
    )

module _ (urlsplit : String → Option Url) where
  pub validate_source-Accepted :
      (version series : String) (seen left : Seen) (source : Fields)
      → validate_source urlsplit version series seen source ≡ ok left
      → Accepted version series seen left source
  unfolding validate_source
  validate_source-Accepted version series seen left source h =
      let (_, _, h0) = >>=-eq-ok (exact_keys source source_keys) _ h in
      let (i, id_read, h1) = >>=-eq-ok (read_id source) _ h0 in
      let (_, checked, h2) =
        >>=-eq-ok (in_order (source_checks urlsplit version series seen i source)) _ h1 in
      let (path, path_read, h3) = >>=-eq-ok (read_path source) _ h2 in
      let (_, separate, made) = >>=-eq-ok (in_order (path_checks seen path source)) _ h3 in
      let id_is : id_of source ≡ i = text-at "id" source id_read in
      let path_is : path_of source ≡ path =
        at-text "path" source (path_under "layers") (λ v s. path_under-ok "layers" v) path_read in
      let (new, apart_from) =
        path_checks-ok seen (path_of source) source
          (subst (λ q. in_order (path_checks seen q source) ≡ ok tt) (sym path_is) separate) in
      let (fresh, fine) = source_checks-ok urlsplit version series seen source (
        subst (λ j. in_order (source_checks urlsplit version series seen j source) ≡ ok tt)
          (sym id_is) checked) in
      let left_is = ap (value_or left) made in
      record {
        new_id = fresh;
        new_path = new;
        no_overlap = apart_from;
        fine = fine;
        ids = sym (ap (λ s. s.ids) left_is) ∙ ap (λ j. j ∷ seen.ids) (sym id_is);
        paths = sym (ap (λ s. s.paths) left_is) ∙ ap (λ q. q ∷ seen.paths) (sym path_is);
      }
