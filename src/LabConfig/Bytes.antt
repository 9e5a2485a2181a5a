-- ===== src/LabConfig/Bytes.antt =====
-- scripts/lab_config.py: the files that a selected lab comes from.
use yocto_qemu_edu_lab.Common.{
  ℕ, String, lookup, ◌≡◌, ap, ◌∙◌, inl, inr, Option, none, some, List, ok, err, ◌>>=◌, >>=-eq-ok,
  ensure, result_or, Option-cases,
}
use yocto_qemu_edu_lab.Json.{str, Fields}
use yocto_qemu_edu_lab.Shape.Parse.{Parsed, Loaded, parse_json_bytes}
use yocto_qemu_edu_lab.Shape.Accepted.{parse_json_bytes_sound}
use yocto_qemu_edu_lab.SourceLock.Validate.{Url}
use yocto_qemu_edu_lab.SourceLock.Parse.{read_lock}
use yocto_qemu_edu_lab.LabConfig.Values.{unknown_lab, path_under}
use yocto_qemu_edu_lab.LabConfig.Manifest.{validate_manifest}
use yocto_qemu_edu_lab.LabConfig.Catalog.{Cataloged, from_json, from_lab, Catalog, at_id}
use yocto_qemu_edu_lab.LabConfig.Select.{
  valid_choice, chosen, manifest_of, Selected, select_from, parse_index_bytes, manifest_file,
  read_catalog, select_lab, inside, inside_for_lock, bytes_of, from_read,
}
use yocto_qemu_edu_lab.LabConfig.Sound.{from_lab-ok}
use yocto_qemu_edu_lab.LabConfig.Chosen.{IsSound, catalog_from_index-IsSound, at_id-found}

from_json-ok : {A : Type 0} (m : Parsed A) {a : A} → from_json m ≡ ok a → m ≡ ok a
from_json-ok (ok x) h = cc
from_json-ok (err e) h = cc

inside-some : {A : Type 0} (o : Option A) {a : A} → inside o ≡ ok a → o ≡ some a
inside-some none h = cc
inside-some (some x) h = cc

bytes_of-some : (o : Option (List ℕ)) {raw : List ℕ} → bytes_of o ≡ ok raw → o ≡ some raw
bytes_of-some none h = cc
bytes_of-some (some x) h = cc

manifest_of-found :
    (i : String) (table : List (String × Fields)) {lab : Fields}
    → manifest_of i table ≡ ok lab
    → lookup i table ≡ some lab
manifest_of-found i table h = elim (Option-cases (lookup i table)) [
  | inl absent ↦ cc (rw (absent, manifest_of) at h)
  | inr (b, found) ↦ cc (rw (found, manifest_of) at h)
]

-- the lab that is asked for, if one is
abbrev pub Answers : Option String → String → Type 0
Answers none lab = Unit
Answers (some i) lab = lab ≡ i

chosen-Answers :
    (choice : Option String) (index : Fields) {i : String}
    → chosen choice index ≡ ok i
    → Answers choice i
chosen-Answers none index h = tt
chosen-Answers (some i) index h = cc

-- The entries of the catalog that a selection is made of.
select_from-found :
    (c : Catalog) (choice : Option String) (s : Selected)
    → select_from c choice ≡ ok s
    → (lookup s.lab c.manifests ≡ some s.manifest)
      × (lookup s.lab c.digests ≡ some s.manifest_digest)
      × Answers choice s.lab
unfolding select_from
select_from-found c choice s h =
    let (_, fine, h1) = >>=-eq-ok (ensure (valid_choice choice) unknown_lab) _ h in
    let (i, named, h2) = >>=-eq-ok (chosen choice c.index) _ h1 in
    let (lab, found, h3) = >>=-eq-ok (manifest_of i c.manifests) _ h2 in
    let (digest, kept, h4) = >>=-eq-ok (at_id i c.digests) _ h3 in
    let made = ap (result_or s) h4 in
    let is_i : i ≡ s.lab = ap (λ t. t.lab) made in
    let is_lab : lab ≡ s.manifest = ap (λ t. t.manifest) made in
    let is_digest : digest ≡ s.manifest_digest = ap (λ t. t.manifest_digest) made in
    (
      rw (← is_i, ← is_lab) (manifest_of-found i c.manifests found),
      rw (← is_i, ← is_digest) (at_id-found i c.digests kept),
      rw (← is_i) (chosen-Answers choice c.index named),
    )

module _ (category : ℕ → String) (urlsplit : String → Option Url) (decode : List ℕ → Option String)
    (loads : String → Loaded) (sha256 : List ℕ → String)
    (read : String → Option (Option (List ℕ))) where
  abbrev reader : String → Cataloged (Fields × String)
  reader = manifest_file category urlsplit decode loads sha256 read

  -- Where a lab comes from: a file of the repository, which parses to the manifest and has the
  -- digest, and the manifest is valid for the id.
  pub record IsRead (i : String) (lab : Fields) (digest : String) : Type 0 where
    pub path : String
    pub raw : List ℕ
    pub file : read path ≡ some (some raw)
    pub parsed : parse_json_bytes decode loads sha256 raw ≡ ok (lab, digest)
    pub hashed : digest ≡ sha256 raw
    pub valid : validate_manifest category lab i ≡ ok tt

  reader-IsRead :
      (i path digest : String) (lab : Fields)
      → reader path ≡ ok (lab, digest)
      → validate_manifest category lab i ≡ ok tt
      → IsRead i lab digest
  reader-IsRead i path digest lab h valid =
      let (raw, opened, h1) = >>=-eq-ok (inside (read path) >>= bytes_of) _ h in
      let (held, there, h2) = >>=-eq-ok (inside (read path)) _ opened in
      let parsed = from_json-ok (parse_json_bytes decode loads sha256 raw) h1 in
      let (_, _, _, hashed) = parse_json_bytes_sound decode loads sha256 raw parsed in
      record {
        path = path;
        raw = raw;
        file = inside-some (read path) there ∙ ap some (bytes_of-some held h2);
        parsed = parsed;
        hashed = hashed;
        valid = valid;
      }

  read_catalog-IsSound :
      (rel : String) {c : Catalog}
      → read_catalog category urlsplit decode loads sha256 read rel ≡ ok c
      → (source_data : Fields) × IsSound category reader source_data c
  unfolding read_catalog
  read_catalog-IsSound rel {c} h =
      let (path, at, h1) = >>=-eq-ok (from_lab (path_under "config" (str rel))) _ h in
      let ((index, digest), parsed, h2) =
        >>=-eq-ok
          (inside (read path)
            >>= bytes_of
            >>= parse_index_bytes category urlsplit decode loads sha256)
          _ h1 in
      let (lock, found, h3) = >>=-eq-ok (inside_for_lock (read "config/sources.lock.json")) _ h2 in
      let ((source_data, lock_digest), valid, h4) =
        >>=-eq-ok (from_read (read_lock urlsplit decode loads sha256 lock)) _ h3 in
      (source_data, catalog_from_index-IsSound category reader index digest source_data c h4)

  -- A selected lab is the one that was asked for, if one was, and its manifest is what a file of
  -- the repository parses to; the digest that is reported is that of the bytes of the file, and
  -- the manifest is valid for the id of the lab.
  pub select_lab-IsRead :
      (choice : Option String) (rel : String) (s : Selected)
      → select_lab category urlsplit decode loads sha256 read choice rel ≡ ok s
      → Answers choice s.lab × IsRead s.lab s.manifest s.manifest_digest
  unfolding select_lab
  select_lab-IsRead choice rel s h =
      let (c, catalog, h1) =
        >>=-eq-ok (read_catalog category urlsplit decode loads sha256 read rel) _ h in
      let (source_data, sound) = read_catalog-IsSound rel catalog in
      let (found, kept, answers) = select_from-found c choice s (from_lab-ok _ h1) in
      let (digest, known, listed) = sound.listed s.lab s.manifest found in
      let same : digest ≡ s.manifest_digest = cc in
      (
        answers,
        rw same at (reader-IsRead s.lab listed.path digest s.manifest listed.read listed.valid),
      )
