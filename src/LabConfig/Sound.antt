-- ===== src/LabConfig/Sound.antt =====
-- scripts/lab_config.py: the catalogs that `_catalog_from_index` returns.
use yocto_qemu_edu_lab.Common.{
  ℕ, String, str_eq, eq_iff, lookup, insert, lookup-insert, ◌≡◌, refl, sym, ap, subst, ◌∙◌, ◌≢◌,
  ◌⊎◌, inl, inr, true, false, some, List, [], ◌∷◌, ok, err, >>=-eq-ok, ensure, ensure-true,
  result_or, Bool-cases,
}
use yocto_qemu_edu_lab.Json.{Json, Fields}
use yocto_qemu_edu_lab.LabConfig.Values.{Checked, other_digest}
use yocto_qemu_edu_lab.LabConfig.Manifest.{validate_manifest}
use yocto_qemu_edu_lab.LabConfig.Catalog.{
  Cataloged, from_lab, Gathered, start, places, entry_texts, gather_entry, gather,
}
use yocto_qemu_edu_lab.LabConfig.Apart.{
  Places, are_apart, among, among-are_apart, Added, add_lab-Added,
}

-- an entry of the index declares a lab, the path of its manifest and the digest
abbrev pub Declares : List Json → String → String → String → Type 0
Declares [] i path digest = ⊥
Declares (v ∷ vs) i path digest = (entry_texts v ≡ ok (i, path, digest)) ⊎ Declares vs i path digest

pub from_lab-ok : {A : Type 0} (m : Checked A) {a : A} → from_lab m ≡ ok a → m ≡ ok a
from_lab-ok (ok x) h = cc
from_lab-ok (err e) h = cc

str_eq_eq : (s t : String) → str_eq s t ≡ true → s ≡ t
str_eq_eq s t h = (eq_iff s t).0 h

module _ (category : ℕ → String) (manifest_reader : String → Cataloged (Fields × String))
    (entries : List Json) where
  -- A lab of the catalog: an entry declares it, and its manifest is what was read at the path of
  -- the entry, with the digest of the entry, and is valid for the id of the entry.
  pub record Listed (i : String) (lab : Fields) (digest : String) : Type 0 where
    pub path : String
    pub declared : Declares entries i path digest
    pub read : manifest_reader path ≡ ok (lab, digest)
    pub valid : validate_manifest category lab i ≡ ok tt

  pub record Sound (g : Gathered) : Type 0 where
    pub listed :
        (i : String) (lab : Fields)
        → lookup i g.manifests ≡ some lab
        → (digest : String) × (lookup i g.digests ≡ some digest) × Listed i lab digest
    pub placed :
        (i : String) (lab : Fields)
        → lookup i g.manifests ≡ some lab
        → (p : Places) × (places lab ≡ ok p) × (among p g ≡ true)
    pub apart :
        (i j : String) (a b : Fields) (p q : Places)
        → lookup i g.manifests ≡ some a
        → lookup j g.manifests ≡ some b
        → i ≢ j
        → places a ≡ ok p
        → places b ≡ ok q
        → are_apart p q ≡ true

  pub start-Sound : Sound start
  unfolding lookup
  start-Sound = record {
    listed = λ i lab h. absurd cc;
    placed = λ i lab h. absurd cc;
    apart = λ i j a b p q h. absurd cc;
  }

  -- What `insert` has put in is the new lab or an old one.
  found-after :
      (i j : String) (lab found : Fields) (table next : List (String × Fields))
      → next ≡ insert i lab table
      → lookup j next ≡ some found
      → ((i ≡ j) × (lab ≡ found)) ⊎ ((str_eq i j ≡ false) × (lookup j table ≡ some found))
  found-after i j lab found table next made h =
      let put = lookup-insert i j lab table in
      elim (Bool-cases (str_eq i j)) [
        | inl same ↦ inl (str_eq_eq i j same, cc (rw (made, put, same) at h))
        | inr other ↦ inr (other, rw (made, put, other) at h)
      ]

  module _ (g next : Gathered) (i : String) (lab : Fields) (digest : String)
      (added : Added g next i lab digest) (new : Listed i lab digest) (s : Sound g) where
    Listed-after :
        (j : String) (found : Fields)
        → lookup j next.manifests ≡ some found
        → (d : String) × (lookup j next.digests ≡ some d) × Listed j found d
    Listed-after j found h =
        elim (found-after i j lab found g.manifests next.manifests added.manifests h) [
          | inl (same, is_lab) ↦ (
            digest,
            rw (added.digests, lookup-insert i j digest g.digests, (eq_iff i j).1 same) refl,
            subst (λ k. Listed k found digest) same (subst (λ l. Listed i l digest) is_lab new),
          )
          | inr (other, old) ↦
              let (d, kept, known) = s.listed j found old in
              (d, rw (added.digests, lookup-insert i j digest g.digests, other) kept, known)
        ]

    placed_after :
        (j : String) (found : Fields)
        → lookup j next.manifests ≡ some found
        → (p : Places) × (places found ≡ ok p) × (among p next ≡ true)
    placed_after j found h =
        elim (found-after i j lab found g.manifests next.manifests added.manifests h) [
          | inl (same, is_lab) ↦ (added.at, rw (← is_lab) added.placed, added.within)
          | inr (other, old) ↦
              let (p, known, inside) = s.placed j found old in (p, known, added.keeps p inside)
        ]

    -- the new lab and an old one
    apart_new :
        (j : String) (old : Fields) (p q : Places)
        → lookup j g.manifests ≡ some old
        → places lab ≡ ok p
        → places old ≡ ok q
        → (are_apart p q ≡ true) × (are_apart q p ≡ true)
    apart_new j old p q h at_p at_q =
        let (q', known, inside) = s.placed j old h in
        let same_q : q' ≡ q = ap (result_or q) (sym known ∙ at_q) in
        let same_p : added.at ≡ p = ap (result_or p) (sym added.placed ∙ at_p) in
        let (there, here) =
          among-are_apart q p g (rw (← same_q) inside) (rw (← same_p) added.new) in
        (here, there)

    apart_after :
        (j k : String) (a b : Fields) (p q : Places)
        → lookup j next.manifests ≡ some a
        → lookup k next.manifests ≡ some b
        → j ≢ k
        → places a ≡ ok p
        → places b ≡ ok q
        → are_apart p q ≡ true
    apart_after j k a b p q at_j at_k differ at_p at_q =
        elim (found-after i j lab a g.manifests next.manifests added.manifests at_j) [
          | inl (is_j, lab_a) ↦
              elim (found-after i k lab b g.manifests next.manifests added.manifests at_k) [
                | inl (is_k, lab_b) ↦ absurd (differ (sym is_j ∙ is_k))
                | inr (other, old) ↦ (apart_new k b p q old (rw lab_a at_p) at_q).0
              ]
          | inr (other, old) ↦
              elim (found-after i k lab b g.manifests next.manifests added.manifests at_k) [
                | inl (is_k, lab_b) ↦ (apart_new j a q p old (rw lab_b at_q) at_p).1
                | inr (also, older) ↦ s.apart j k a b p q old older differ at_p at_q
              ]
        ]

    Sound-after : Sound next
    Sound-after = record { listed = Listed-after; placed = placed_after; apart = apart_after }

  gather_entry-Sound :
      (g : Gathered) (value : Json) {next : Gathered}
      → ((i path digest : String)
          → entry_texts value ≡ ok (i, path, digest)
          → Declares entries i path digest)
      → Sound g
      → gather_entry category manifest_reader g value ≡ ok next
      → Sound next
  unfolding gather_entry
  gather_entry-Sound g value {next} declared s h =
      let ((i, path, expected), texts, h1) = >>=-eq-ok (from_lab (entry_texts value)) _ h in
      let ((lab, actual), read, h2) = >>=-eq-ok (manifest_reader path) _ h1 in
      let (_, hashed, h3) =
        >>=-eq-ok (from_lab (ensure (str_eq actual expected) other_digest)) _ h2 in
      let (_, valid, h4) = >>=-eq-ok (from_lab (validate_manifest category lab i)) _ h3 in
      let matched = str_eq_eq actual expected (ensure-true _ _ (from_lab-ok _ hashed)) in
      let listed : Listed i lab actual = record {
        path = path;
        declared = rw matched (declared i path expected (from_lab-ok _ texts));
        read = read;
        valid = from_lab-ok _ valid;
      } in
      Sound-after g next i lab actual (add_lab-Added g i lab actual (from_lab-ok _ h4)) listed s

  pub gather-Sound :
      (values : List Json) (g : Gathered) {last : Gathered}
      → ((i path digest : String) → Declares values i path digest → Declares entries i path digest)
      → Sound g
      → gather category manifest_reader values g ≡ ok last
      → Sound last
  unfolding gather
  gather-Sound [] g {last} declared s h = subst Sound (ap (result_or last) h) s
  gather-Sound (value ∷ values) g declared s h =
      let (next, round, rest) = >>=-eq-ok (gather_entry category manifest_reader g value) _ h in
      gather-Sound values next (λ i path digest d. declared i path digest (inr d))
        (gather_entry-Sound g value (λ i path digest d. declared i path digest (inl d)) s round)
        rest
