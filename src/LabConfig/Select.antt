-- ===== src/LabConfig/Select.antt =====
-- scripts/lab_config.py: the readers of the catalog, and the selection of a lab and of a field.
-- `read` is `locked_path` and the file below it: none where the path leaves the repository, and
-- otherwise the bytes, or none where they cannot be read.
use yocto_qemu_edu_lab.Common.{
  ℕ, String, str_eq, lookup, Bool, true, ◌&&◌, not, Option, none, some, List, [], ◌∷◌, codes,
  length, leb, Result, ok, err, ◌>>=◌, ensure,
}
use yocto_qemu_edu_lab.Json.{Json, str, obj, Fields, get}
use yocto_qemu_edu_lab.Regex.{fullmatch}
use yocto_qemu_edu_lab.Shape.Parse.{Loaded, parse_json_bytes}
use yocto_qemu_edu_lab.SourceLock.Validate.{Url}
use yocto_qemu_edu_lab.SourceLock.Parse.{ReadError, path_escapes, read_lock}
use yocto_qemu_edu_lab.LabConfig.Values.{
  Checked, max_string_length, unreadable, unknown_lab, unknown_field, path_under,
}
use yocto_qemu_edu_lab.LabConfig.Profiles.{lab_id_pattern}
use yocto_qemu_edu_lab.LabConfig.Index.{validate_index}
use yocto_qemu_edu_lab.LabConfig.Catalog.{
  bad_lab, escapes, bad_source_lock, Cataloged, from_json, from_lab, Catalog, catalog_from_index,
  string_at, at_id,
}

abbrev pub from_read : {A : Type 0} → Result ReadError A → Cataloged A
from_read (ok a) = ok a
from_read (err e) = err (bad_source_lock e)

abbrev pub bytes_of : Option (List ℕ) → Cataloged (List ℕ)
bytes_of none = err (bad_lab unreadable)
bytes_of (some raw) = ok raw

abbrev pub inside : {A : Type 0} → Option A → Cataloged A
inside none = err escapes
inside (some a) = ok a

abbrev pub inside_for_lock : {A : Type 0} → Option A → Cataloged A
inside_for_lock none = err (bad_source_lock path_escapes)
inside_for_lock (some a) = ok a

-- `data` of `get_field`, for the parts of the name between the dots
unfoldable pub get_field : List String → Json → Checked Json
get_field [] value = ok value
get_field (part ∷ parts) (obj fields) = elim (get part fields) [
  | none ↦ err unknown_field
  | some value ↦ get_field parts value
]
get_field (part ∷ parts) _ = err unknown_field

abbrev pub is_lab_id : String → Bool
is_lab_id i =
    not (str_eq i "") && leb (length (codes i)) max_string_length && fullmatch lab_id_pattern i

abbrev pub valid_choice : Option String → Bool
valid_choice none = true
valid_choice (some i) = is_lab_id i

abbrev pub chosen : Option String → Fields → Checked String
chosen none index = string_at "default_lab" index
chosen (some i) index = ok i

-- `selected, manifests[selected], index_digest, digests[selected]`
pub record Selected : Type 0 where
  pub lab : String
  pub manifest : Fields
  pub index_digest : String
  pub manifest_digest : String

abbrev pub manifest_of : String → List (String × Fields) → Checked Fields
manifest_of i table = elim (lookup i table) [ none ↦ err unknown_lab | some manifest ↦ ok manifest ]

unfoldable pub select_from : Catalog → Option String → Checked Selected
select_from catalog lab_id = ensure (valid_choice lab_id) unknown_lab >>= λ fine.
    chosen lab_id catalog.index >>= λ i. manifest_of i catalog.manifests >>= λ manifest.
    at_id i catalog.digests >>= λ digest. ok (record {
      lab = i;
      manifest = manifest;
      index_digest = catalog.index_digest;
      manifest_digest = digest;
    })

module _ (category : ℕ → String) (urlsplit : String → Option Url) (decode : List ℕ → Option String)
    (loads : String → Loaded) (sha256 : List ℕ → String) where
  abbrev pub parse_json : List ℕ → Cataloged (Fields × String)
  parse_json raw = from_json (parse_json_bytes decode loads sha256 raw)

  unfoldable pub parse_index_bytes : List ℕ → Cataloged (Fields × String)
  parse_index_bytes raw = parse_json raw >>= λ (index, digest).
      from_lab (validate_index index) >>= λ valid. ok (index, digest)

  -- `read_manifest`, from bytes that a caller has read
  abbrev pub manifest_from : List (String × List ℕ) → String → Cataloged (Fields × String)
  manifest_from manifest_bytes path = bytes_of (lookup path manifest_bytes) >>= parse_json

  unfoldable pub read_catalog_bytes : List ℕ → List (String × List ℕ) → Fields → Cataloged Catalog
  unfolding parse_index_bytes
  read_catalog_bytes index_raw manifest_bytes source_data =
      parse_index_bytes index_raw >>= λ (index, digest).
      catalog_from_index category (manifest_from manifest_bytes) index digest source_data

  module _ (read : String → Option (Option (List ℕ))) where
    -- `read_manifest`, from the file
    abbrev pub manifest_file : String → Cataloged (Fields × String)
    manifest_file path = inside (read path) >>= bytes_of >>= parse_json

    unfoldable pub read_catalog : String → Cataloged Catalog
    unfolding parse_index_bytes
    read_catalog index_relative = from_lab (path_under "config" (str index_relative)) >>= λ path.
        inside (read path) >>= bytes_of >>= parse_index_bytes >>= λ (index, digest).
        inside_for_lock (read "config/sources.lock.json") >>= λ lock.
        from_read (read_lock urlsplit decode loads sha256 lock) >>= λ (source_data, lock_digest).
        catalog_from_index category manifest_file index digest source_data

    unfoldable pub select_lab : Option String → String → Cataloged Selected
    unfolding read_catalog select_from
    select_lab lab_id index_relative =
        read_catalog index_relative >>= λ catalog. from_lab (select_from catalog lab_id)
