-- ===== src/SourceLock/Loop.antt =====
-- scripts/source_lock.py: the loop over the sources, their ids and their paths.
use yocto_qemu_edu_lab.Common.{
  String, str_eq, eq_iff, member, ◌≡◌, refl, sym, ap, subst, ◌∙◌, Bool, true, false, ◌&&◌, ◌||◌,
  not, Option, List, [], ◌∷◌, map, any, all, arith, ok, >>=-eq-ok, and-true,
}
use yocto_qemu_edu_lab.Json.{Json, null, bool, int, float, str, arr, obj, Fields}
use yocto_qemu_edu_lab.SourceLock.Values.{object_value, distinct}
use yocto_qemu_edu_lab.SourceLock.Validate.{Url, Seen, validate_source, validate_sources, overlaps}
use yocto_qemu_edu_lab.SourceLock.Spec.{id_of, path_of, is_locked, apart}
use yocto_qemu_edu_lab.SourceLock.Sources.{validate_source-Accepted}
use yocto_qemu_edu_lab.SourceLock.Reads.{value_or, Accepted}

abbrev pub new_id : List String → Fields → Bool
new_id ids source = not (member (id_of source) ids)

abbrev pub new_path : List String → Fields → Bool
new_path paths source =
    not (member (path_of source) paths) && not (any (overlaps (path_of source)) paths)

-- What a loop that ends has read and left.
pub record Read (version series : String) (values : List Json) (seen left : Seen) : Type 0 where
  pub sources : List Fields
  pub made : values ≡ map obj sources
  pub fine : all (is_locked version series) sources ≡ true
  pub new_ids : all (new_id seen.ids) sources ≡ true
  pub new_paths : all (new_path seen.paths) sources ≡ true
  pub separate : distinct (map id_of sources) ≡ true
  pub separate_paths : apart (map path_of sources) ≡ true
  pub among : (i : String) → member i left.ids ≡ (member i (map id_of sources) || member i seen.ids)

pub object_value-ok : (v : Json) {fields : Fields} → object_value v ≡ ok fields → v ≡ obj fields
unfolding object_value
object_value-ok (obj fs) h = cc
object_value-ok null h = cc
object_value-ok (bool b) h = cc
object_value-ok (int n) h = cc
object_value-ok (float s) h = cc
object_value-ok (arr vs) h = cc
object_value-ok (str s) h = cc

ids-split :
    (i : String) (ids : List String) (sources : List Fields)
    → all (new_id (i ∷ ids)) sources ≡ true
    → (all (new_id ids) sources ≡ true) × (member i (map id_of sources) ≡ false)
ids-split i ids [] h = (refl, refl)
ids-split i ids (s ∷ ss) h =
    ground (arith, ids-split i ids ss, eq_iff i (id_of s), eq_iff (id_of s) i)

overlaps_sym : (p q : String) → overlaps p q ≡ overlaps q p
overlaps_sym p q = ground arith

str_eq_sym : (s t : String) → str_eq s t ≡ str_eq t s
str_eq_sym s t = ground (arith, eq_iff s t, eq_iff t s)

both-split :
    (e m o a : Bool)
    → (not (e || m) && not (o || a)) ≡ true
    → (e ≡ false) × (o ≡ false) × ((not m && not a) ≡ true)
both-split e m o a h = ground arith

paths-split :
    (p : String) (paths : List String) (sources : List Fields)
    → all (new_path (p ∷ paths)) sources ≡ true
    → (all (new_path paths) sources ≡ true)
      × (member p (map path_of sources) ≡ false)
      × (any (overlaps p) (map path_of sources) ≡ false)
paths-split p paths [] h = (refl, refl, refl)
paths-split p paths (s ∷ ss) h =
    let (here, later) = and-true _ _ h in
    let (old, apart_from, disjoint) = paths-split p paths ss later in
    let (other, clear, mine) =
      both-split (str_eq (path_of s) p) (member (path_of s) paths) (overlaps (path_of s) p)
        (any (overlaps (path_of s)) paths) here in
    (
      rw (mine, old) refl,
      rw (str_eq_sym p (path_of s), other, apart_from) refl,
      rw (overlaps_sym p (path_of s), clear, disjoint) refl,
    )

Read-cons :
    {version series : String} {values : List Json} {seen next left : Seen} (source : Fields)
    → Accepted version series seen next source
    → Read version series values next left
    → Read version series (obj source ∷ values) seen left
Read-cons {seen = seen} source a r =
    let (ids, id_alone) =
      ids-split (id_of source) seen.ids r.sources
        (subst (λ is. all (new_id is) r.sources ≡ true) a.ids r.new_ids) in
    let (paths, path_alone, disjoint) =
      paths-split (path_of source) seen.paths r.sources
        (subst (λ ps. all (new_path ps) r.sources ≡ true) a.paths r.new_paths) in
    record {
      sources = source ∷ r.sources;
      made = ap (λ vs. obj source ∷ vs) r.made;
      fine = rw (a.fine, r.fine) refl;
      new_ids = rw (a.new_id, ids) refl;
      new_paths = rw (a.new_path, a.no_overlap, paths) refl;
      separate = rw (id_alone, r.separate) refl;
      separate_paths = rw (path_alone, disjoint, r.separate_paths) refl;
      among = λ i. r.among i ∙ rw a.ids (ground arith);
    }

module _ (urlsplit : String → Option Url) where
  pub validate_sources-Read :
      (version series : String) (values : List Json) (seen : Seen) {left : Seen}
      → validate_sources urlsplit version series values seen ≡ ok left
      → Read version series values seen left
  unfolding validate_sources
  validate_sources-Read version series [] seen h =
      subst (Read version series [] seen) (ap (value_or seen) h) (record {
        sources = [];
        made = refl;
        fine = refl;
        new_ids = refl;
        new_paths = refl;
        separate = refl;
        separate_paths = refl;
        among = λ i. refl;
      })
  validate_sources-Read version series (value ∷ values) seen {left} h =
      let (source, opened, h1) = >>=-eq-ok (object_value value) _ h in
      let (next, accepted, rest) =
        >>=-eq-ok (validate_source urlsplit version series seen source) _ h1 in
      subst (λ v. Read version series (v ∷ values) seen left) (sym (object_value-ok value opened))
        (Read-cons source
          (validate_source-Accepted urlsplit version series seen next source accepted)
          (validate_sources-Read version series values next rest))
