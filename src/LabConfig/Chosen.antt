-- ===== src/LabConfig/Chosen.antt =====
-- scripts/lab_config.py: the catalogs that the readers return, and the labs that are selected.
use yocto_qemu_edu_lab.Common.{
  ℕ, String, lookup, ◌≡◌, refl, ap, subst, ◌≢◌, inl, inr, true, none, some, List, ok, ◌>>=◌,
  >>=-eq-ok, result_or, Option-cases,
}
use yocto_qemu_edu_lab.Json.{Json, Fields}
use yocto_qemu_edu_lab.LabConfig.Values.{item_at}
use yocto_qemu_edu_lab.LabConfig.Catalog.{
  Cataloged, from_lab, start, places, gather, Catalog, catalog_from_index, at_id, as_list,
  string_at, default_build_parity_data,
}
use yocto_qemu_edu_lab.LabConfig.Select.{manifest_of, Selected, select_from}
use yocto_qemu_edu_lab.LabConfig.Apart.{Places, are_apart}
use yocto_qemu_edu_lab.LabConfig.Sound.{Listed, start-Sound, gather-Sound, from_lab-ok}

pub at_id-found :
    {A : Type 0} (i : String) (table : List (String × A)) {a : A}
    → at_id i table ≡ ok a
    → lookup i table ≡ some a
at_id-found i table h = elim (Option-cases (lookup i table)) [
  | inl absent ↦ cc (rw (absent, at_id) at h)
  | inr (b, found) ↦ cc (rw (found, at_id) at h)
]

module _ (category : ℕ → String) (manifest_reader : String → Cataloged (Fields × String)) where
  -- What a catalog promises its reader.
  pub record IsSound (source_data : Fields) (c : Catalog) : Type 0 where
    pub entries : List Json
    pub labs : (item_at "labs" c.index >>= as_list) ≡ ok entries
    pub listed :
        (i : String) (lab : Fields)
        → lookup i c.manifests ≡ some lab
        → (digest : String) × (lookup i c.digests ≡ some digest)
          × Listed category manifest_reader entries i lab digest
    pub apart :
        (i j : String) (a b : Fields) (p q : Places)
        → lookup i c.manifests ≡ some a
        → lookup j c.manifests ≡ some b
        → i ≢ j
        → places a ≡ ok p
        → places b ≡ ok q
        → are_apart p q ≡ true
    pub default_lab : String
    pub default_id : string_at "default_lab" c.index ≡ ok default_lab
    pub default_manifest : Fields
    pub default_found : lookup default_lab c.manifests ≡ some default_manifest
    pub default_builds : default_build_parity_data source_data default_manifest ≡ ok tt

  -- A catalog that is made of an index holds, for each lab, the manifest that was read at the
  -- path that an entry of the index declares, with the digest that the entry declares, and valid
  -- for the id; no two labs share a build directory, a development directory or a machine; and
  -- the default lab is among them and builds what the source lock says.
  pub catalog_from_index-IsSound :
      (index : Fields) (digest : String) (source_data : Fields) (c : Catalog)
      → catalog_from_index category manifest_reader index digest source_data ≡ ok c
      → IsSound source_data c
  unfolding catalog_from_index
  catalog_from_index-IsSound index digest source_data c h =
      let (entries, labs, h1) = >>=-eq-ok (from_lab (item_at "labs" index >>= as_list)) _ h in
      let (default_lab, named, h2) = >>=-eq-ok (from_lab (string_at "default_lab" index)) _ h1 in
      let (g, gathered, h3) = >>=-eq-ok (gather category manifest_reader entries start) _ h2 in
      let (lab, found, h4) = >>=-eq-ok (from_lab (at_id default_lab g.manifests)) _ h3 in
      let (_, same, h5) = >>=-eq-ok (from_lab (default_build_parity_data source_data lab)) _ h4 in
      let s =
        gather-Sound category manifest_reader entries entries start (λ i path d known. known)
          (start-Sound category manifest_reader entries) gathered in
      subst (IsSound source_data) (ap (result_or c) h5) (record {
        entries = entries;
        labs = from_lab-ok _ labs;
        listed = s.listed;
        apart = s.apart;
        default_lab = default_lab;
        default_id = from_lab-ok _ named;
        default_manifest = lab;
        default_found = at_id-found default_lab g.manifests (from_lab-ok _ found);
        default_builds = from_lab-ok _ same;
      })

  -- With no lab named, the default lab of such a catalog is selected, and no key is missing.
  select_from_default :
      (source_data : Fields) (c : Catalog)
      → (s : IsSound source_data c)
      → (chosen_lab : Selected) × (select_from c none ≡ ok chosen_lab)
        × (chosen_lab.lab ≡ s.default_lab)
        × (chosen_lab.manifest ≡ s.default_manifest)
  unfolding select_from
  select_from_default source_data c s =
      let (digest, kept, _) = s.listed s.default_lab s.default_manifest s.default_found in
      (
        record {
          lab = s.default_lab;
          manifest = s.default_manifest;
          index_digest = c.index_digest;
          manifest_digest = digest;
        },
        rw (s.default_id, s.default_found, manifest_of, kept, at_id) refl,
        refl,
        refl,
      )
