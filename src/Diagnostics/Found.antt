-- ===== src/Diagnostics/Found.antt =====
-- What the context of a command of scripts/diagnostics.py holds of the source lock, the catalog and
-- the selected lab.
use yocto_qemu_edu_lab.Common.{
  String, ◌≡◌, refl, ap, ◌⊎◌, inl, inr, Option, none, some, List, [], arith, ok, Bool-cases,
  Option-cases,
}
use yocto_qemu_edu_lab.Diagnostics.Checks.{CheckId, Check, Status, unavailable}
use yocto_qemu_edu_lab.Diagnostics.Environment.{
  Environment, Input, got, input_unavailable, input_contract, Bytes, Lock, Manifest, Index, Catalog,
}
use yocto_qemu_edu_lab.Diagnostics.Context.{
  Context, Step, source_lock, read_catalog, read_selection, blocked, unless_blocked, record_check,
  find_in, read_manifests,
}
use yocto_qemu_edu_lab.Diagnostics.Steps.Held.{with_status}

-- A context keeps what another holds of the lock and of the labs.
pub record Keeps (c d : Context) : Type 0 where
  pub lock : d.lock ≡ c.lock
  pub lab_id : d.lab_id ≡ c.lab_id
  pub manifests : d.manifests ≡ c.manifests
  pub manifest : d.manifest ≡ c.manifest

Input-cases :
    {A : Type 0} (x : Input A)
    → ((a : A) × (x ≡ got a)) ⊎ ((x ≡ input_unavailable) ⊎ (x ≡ input_contract))
Input-cases (got a) = inl (a, refl)
Input-cases input_unavailable = inr (inl refl)
Input-cases input_contract = inr (inr refl)

record_check-with_status :
    (i : CheckId) (s : Status) (c : Context) {k : Check} {d : Context}
    → record_check i s c ≡ ok (k, d)
    → d ≡ with_status i k.status c
unfolding record_check
record_check-with_status i s c h = ground arith

pub with_status-Keeps :
    (i : CheckId) (s : Status) (c : Context) {d : Context} → d ≡ with_status i s c → Keeps c d
with_status-Keeps i s c h = record {
  lock = ap (λ x. x.lock) h;
  lab_id = ap (λ x. x.lab_id) h;
  manifests = ap (λ x. x.manifests) h;
  manifest = ap (λ x. x.manifest) h;
}

-- A check alone keeps the context.
record_check-Keeps :
    (i : CheckId) (s : Status) (c : Context) {k : Check} {d : Context}
    → record_check i s c ≡ ok (k, d)
    → Keeps c d
record_check-Keeps i s c {k} h = with_status-Keeps i k.status c (record_check-with_status i s c h)

pub unless_blocked-cases :
    (ids : List CheckId) (i : CheckId) (m : Step) (c : Context) {k : Check} {d : Context}
    → unless_blocked ids i m c ≡ ok (k, d)
    → Keeps c d ⊎ (m c ≡ ok (k, d))
unfolding unless_blocked
unless_blocked-cases ids i m c h = elim (Bool-cases (blocked ids c)) [
  | inl stuck ↦ inl (record_check-Keeps i unavailable c (rw stuck at h))
  | inr clear ↦ inr (rw clear at h)
]

-- The lock is what the file of the lock parses to.
pub record IsLock (e : Environment) (lock : Lock) : Type 0 where
  pub raw : Bytes
  pub digest : String
  pub read : e.read_regular "config/sources.lock.json" 65536 ≡ got raw
  pub valid : e.parse_lock_bytes raw ≡ some (lock, digest)

-- the lab that is asked for, or the one of the index
abbrev pub lab_or : String → Option String → String
lab_or default none = default
lab_or default (some lab) = lab

-- The manifests are those of the catalog that is read with this lock, and the lab is the one that
-- is asked for or the default of the index.
pub record IsCataloged (e : Environment) (lock : Lock) (requested lab_id : Option String)
    (manifests : Option (List (String × Manifest))) : Type 0 where
  pub index_raw : Bytes
  pub index : Index
  pub manifest_bytes : List (String × Bytes)
  pub catalog : Catalog
  pub index_read : e.read_regular "config/labs/index.json" 65536 ≡ got index_raw
  pub index_valid : e.parse_index_bytes index_raw ≡ some index
  pub manifests_read : read_manifests e index.labs [] ≡ got manifest_bytes
  pub cataloged : e.read_catalog_bytes index_raw manifest_bytes lock ≡ some catalog
  pub manifests_at : manifests ≡ some catalog.manifests
  pub lab_at : lab_id ≡ some (lab_or index.default_lab requested)

module _ (e : Environment) where
  pub source_lock-IsLock :
      (c : Context) {k : Check} {d : Context}
      → source_lock e c ≡ ok (k, d)
      → (d.lab_id ≡ c.lab_id)
        × (d.manifests ≡ c.manifests)
        × (d.manifest ≡ c.manifest)
        × ((d.lock ≡ c.lock) ⊎ ((lock : Lock) × (d.lock ≡ some lock) × IsLock e lock))
  unfolding source_lock
  source_lock-IsLock c {k} {d} h =
      elim (Input-cases (e.read_regular "config/sources.lock.json" 65536)) [
        | inr (inl absent) ↦ kept {d = d} (ground arith)
        | inr (inr refused) ↦ kept {d = d} (ground arith)
        | inl (raw, read) ↦ elim (Option-cases (e.parse_lock_bytes raw)) [
          | inl invalid ↦ kept {d = d} (ground arith)
          | inr ((lock, digest), valid) ↦ (
            ground arith,
            ground arith,
            ground arith,
            inr (
              lock,
              ground arith,
              record { raw = raw; digest = digest; read = read; valid = valid },
            ),
          )
        ]
      ]
    where
      kept :
          {d : Context}
          → Keeps c d
          → (d.lab_id ≡ c.lab_id)
            × (d.manifests ≡ c.manifests)
            × (d.manifest ≡ c.manifest)
            × ((d.lock ≡ c.lock) ⊎ ((lock : Lock) × (d.lock ≡ some lock) × IsLock e lock))
      kept k = (k.lab_id, k.manifests, k.manifest, inl k.lock)

  -- What a lock and a request lead to: nothing of the labs, or a catalog.
  abbrev pub Catalogs : Lock → Context → Context → Type 0
  Catalogs lock c d = (d.manifests ≡ c.manifests) ⊎ IsCataloged e lock c.lab_id d.lab_id d.manifests

  pub read_catalog-IsCataloged :
      (c : Context) (lock : Lock) {k : Check} {d : Context}
      → read_catalog e c ≡ ok (k, d)
      → c.lock ≡ some lock
      → Catalogs lock c d
  unfolding read_catalog
  read_catalog-IsCataloged c lock {k} {d} h held =
      elim (Input-cases (e.read_regular "config/labs/index.json" 65536)) [
        | inr (inl absent) ↦ inl (ground arith)
        | inr (inr refused) ↦ inl (ground arith)
        | inl (index_raw, index_read) ↦ elim (Option-cases (e.parse_index_bytes index_raw)) [
          | inl invalid ↦ inl (ground arith)
          | inr (index, index_valid) ↦ elim (Input-cases (read_manifests e index.labs [])) [
            | inr (inl absent) ↦ inl (ground arith)
            | inr (inr refused) ↦ inl (ground arith)
            | inl (manifest_bytes, manifests_read) ↦
                elim (Option-cases (e.read_catalog_bytes index_raw manifest_bytes lock)) [
                  | inl invalid ↦ inl (ground arith)
                  | inr (catalog, cataloged) ↦ inr (record {
                    index_raw = index_raw;
                    index = index;
                    manifest_bytes = manifest_bytes;
                    catalog = catalog;
                    index_read = index_read;
                    index_valid = index_valid;
                    manifests_read = manifests_read;
                    cataloged = cataloged;
                    manifests_at = ground arith;
                    lab_at = ground arith;
                  })
                ]
          ]
        ]
      ]

  pub read_catalog-keeps :
      (c : Context) {k : Check} {d : Context}
      → read_catalog e c ≡ ok (k, d)
      → (d.lock ≡ c.lock) × (d.manifest ≡ c.manifest)
  unfolding read_catalog
  read_catalog-keeps c h = (ground arith, ground arith)

  -- the manifest of a selection: as it was, or that of the lab in the manifests
  abbrev pub Selects : Context → Context → Type 0
  Selects c d =
      (d.manifest ≡ c.manifest)
      ⊎ ((manifests : List (String × Manifest)) × (c.manifests ≡ some manifests)
          × (d.manifest ≡ find_in c.lab_id manifests))

  pub read_selection-Selects :
      (c : Context) {k : Check} {d : Context} → read_selection e c ≡ ok (k, d) → Selects c d
  unfolding read_selection
  read_selection-Selects c h = elim (Option-cases c.manifests) [
    | inl absent ↦ inl (ground arith)
    | inr (manifests, there) ↦ elim (Option-cases c.manifest_digests) [
      | inl none_there ↦ inl (ground arith)
      | inr (digests, found) ↦ inr (manifests, there, ground arith)
    ]
  ]

  pub read_selection-keeps :
      (c : Context) {k : Check} {d : Context}
      → read_selection e c ≡ ok (k, d)
      → (d.lock ≡ c.lock) × (d.lab_id ≡ c.lab_id) × (d.manifests ≡ c.manifests)
  unfolding read_selection
  read_selection-keeps c h = (ground arith, ground arith, ground arith)
