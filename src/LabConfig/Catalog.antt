-- ===== src/LabConfig/Catalog.antt =====
-- scripts/lab_config.py: the catalog of an index and its manifests, and the selection of a lab.
-- Python's library and the files are arguments. A set is the list of its members.
use yocto_qemu_edu_lab.Common.{
  ℕ, String, str_eq, member, lookup, insert, Bool, true, false, ◌&&◌, ◌||◌, not, none, some, List,
  [], ◌∷◌, Result, ok, err, ◌>>=◌, ensure, in_turn,
}
use yocto_qemu_edu_lab.Json.{Json, str, arr, obj, Fields, Items, nil, cons, items}
use yocto_qemu_edu_lab.Shape.Parse.{ParseError, Parsed}
use yocto_qemu_edu_lab.SourceLock.Parse.{ReadError}
use yocto_qemu_edu_lab.LabConfig.Values.{
  LabError, Checked, not_text, not_object, other_build, other_digest, duplicate_build_dir,
  duplicate_machine, no_key, not_labs, item_at,
}
use yocto_qemu_edu_lab.LabConfig.Manifest.{validate_manifest}

pub data CatalogError : Type 0 where
  bad_json : ParseError → CatalogError
  bad_lab : LabError → CatalogError
  -- a path that leaves the repository, and an invalid source lock
  escapes : CatalogError
  bad_source_lock : ReadError → CatalogError

abbrev pub Cataloged : Type 0 → Type 0
Cataloged = Result CatalogError

abbrev pub from_json : {A : Type 0} → Parsed A → Cataloged A
from_json (ok a) = ok a
from_json (err e) = err (bad_json e)

abbrev pub from_lab : {A : Type 0} → Checked A → Cataloged A
from_lab (ok a) = ok a
from_lab (err e) = err (bad_lab e)

-- A text, an object and an array where the validators have found one.
abbrev pub as_string : Json → Checked String
as_string (str text) = ok text
as_string _ = err not_text

abbrev pub as_object : Json → Checked Fields
as_object (obj fields) = ok fields
as_object _ = err not_object

abbrev pub as_list : Json → Checked (List Json)
as_list (arr vs) = ok (items vs)
as_list _ = err not_labs

abbrev pub string_at : String → Fields → Checked String
string_at key fields = item_at key fields >>= as_string

abbrev pub object_at : String → Fields → Checked Fields
object_at key fields = item_at key fields >>= as_object

-- `==` of the values that a validated build has: texts, and arrays of texts
unfoldable mutual
  pub same_build_value : Json → Json → Bool
  same_build_value (str s) (str t) = str_eq s t
  same_build_value (arr vs) (arr ws) = same_build_items vs ws
  same_build_value _ _ = false

  pub same_build_items : Items → Items → Bool
  same_build_items nil nil = true
  same_build_items (cons v vs) (cons w ws) = same_build_value v w && same_build_items vs ws
  same_build_items _ _ = false

abbrev pub parity_check : Fields → Fields → String → Checked Unit
parity_check legacy selected key = item_at key legacy >>= λ old.
    item_at key selected >>= λ new. ensure (same_build_value old new) other_build

unfoldable pub default_build_parity_data : Fields → Fields → Checked Unit
default_build_parity_data source_data lab = object_at "build" source_data >>= λ legacy.
    object_at "build" lab >>= λ selected. in_turn (
      parity_check legacy selected "build_dir"
      ∷ parity_check legacy selected "distro"
      ∷ parity_check legacy selected "machine"
      ∷ parity_check legacy selected "targets"
      ∷ parity_check legacy selected "layers"
      ∷ [])

-- What the loop over the entries has gathered.
pub record Gathered : Type 0 where
  pub build_dirs : List String
  pub machines : List String
  pub manifests : List (String × Fields)
  pub digests : List (String × String)

abbrev pub start : Gathered
start = record { build_dirs = []; machines = []; manifests = []; digests = [] }

abbrev pub place_checks : Gathered → String → String → String → List (Checked Unit)
place_checks g build_dir sdk_dir machine =
    ensure (not (member build_dir g.build_dirs)) duplicate_build_dir
    ∷ ensure (not (member sdk_dir g.build_dirs || str_eq sdk_dir build_dir)) duplicate_build_dir
    ∷ ensure (not (member machine g.machines)) duplicate_machine
    ∷ []

-- the build directory, that of the development, and the machine
abbrev pub places : Fields → Checked (String × String × String)
places lab = object_at "build" lab >>= λ build. string_at "build_dir" build >>= λ dir.
    object_at "development" lab >>= λ development. string_at "build_dir" development >>= λ sdk_dir.
    string_at "machine" build >>= λ machine. ok (dir, sdk_dir, machine)

unfoldable pub add_lab : Gathered → String → Fields → String → Checked Gathered
unfolding insert
add_lab g i lab digest = places lab >>= λ (build_dir, sdk_dir, machine).
    in_turn (place_checks g build_dir sdk_dir machine) >>= λ apart. ok (record {
      build_dirs = sdk_dir ∷ build_dir ∷ g.build_dirs;
      machines = machine ∷ g.machines;
      manifests = insert i lab g.manifests;
      digests = insert i digest g.digests;
    })

-- `index`, `index_digest`, `manifests` and `digests`
pub record Catalog : Type 0 where
  pub index : Fields
  pub index_digest : String
  pub manifests : List (String × Fields)
  pub digests : List (String × String)

-- an entry of the index, which `validate_index` has read as such
abbrev pub entry_texts : Json → Checked (String × String × String)
entry_texts value = as_object value >>= λ entry. string_at "id" entry >>= λ i.
    string_at "manifest" entry >>= λ path.
    string_at "sha256" entry >>= λ digest. ok (i, path, digest)

-- `manifests[default_lab]`
abbrev pub at_id : {A : Type 0} → String → List (String × A) → Checked A
at_id i table = elim (lookup i table) [ none ↦ err no_key | some value ↦ ok value ]

module _ (category : ℕ → String) (manifest_reader : String → Cataloged (Fields × String)) where
  unfoldable pub gather_entry : Gathered → Json → Cataloged Gathered
  gather_entry g value = from_lab (entry_texts value) >>= λ (i, path, expected).
      manifest_reader path >>= λ (lab, actual).
      from_lab (ensure (str_eq actual expected) other_digest) >>= λ hashed.
      from_lab (validate_manifest category lab i) >>= λ valid. from_lab (add_lab g i lab actual)

  unfoldable pub gather : List Json → Gathered → Cataloged Gathered
  gather [] g = ok g
  gather (value ∷ values) g = gather_entry g value >>= λ next. gather values next

  unfoldable pub catalog_from_index : Fields → String → Fields → Cataloged Catalog
  catalog_from_index index digest source_data =
      from_lab (item_at "labs" index >>= as_list) >>= λ entries.
      from_lab (string_at "default_lab" index) >>= λ default_lab. gather entries start >>= λ g.
      from_lab (at_id default_lab g.manifests) >>= λ lab.
      from_lab (default_build_parity_data source_data lab) >>= λ same. ok (record {
        index = index;
        index_digest = digest;
        manifests = g.manifests;
        digests = g.digests;
      })
