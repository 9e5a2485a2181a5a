-- ===== src/LabConfig/Selection.antt =====
-- A repository of one lab: its index, its lock and its manifest, and the lab that is selected.
use yocto_qemu_edu_lab.Common.{
  ℕ, String, str_eq, same_bytes, ◌≡◌, refl, lookup, insert, Option, none, some, List, [], ◌∷◌,
  Result, ok, err, if◌then◌else◌, is_space, text_le, put_in, sorted,
}
use yocto_qemu_edu_lab.Json.{Json, int, str, arr, obj, pos, nil, cons, Fields, end, field, get}
use yocto_qemu_edu_lab.Regex.{fullmatch, matches}
use yocto_qemu_edu_lab.Shape.Walk.{walk, validate_json_shape}
use yocto_qemu_edu_lab.Shape.Parse.{Loaded, tree, invalid, guarded, parse_json_bytes}
use yocto_qemu_edu_lab.SourceLock.Paths.{is_normalized}
use yocto_qemu_edu_lab.SourceLock.Validate.{
  validate_release, validate_source, validate_sources, validate_lock,
}
use yocto_qemu_edu_lab.SourceLock.Validate
use yocto_qemu_edu_lab.SourceLock.Values
use yocto_qemu_edu_lab.SourceLock.Parse.{parse_lock_bytes, read_lock}
use yocto_qemu_edu_lab.SourceLock.Examples.{lock, split_https}
use yocto_qemu_edu_lab.LabConfig.Values.{
  LabError, exact_keys, object_value, string_value, integer_value, string_list, has_bad_space,
  relative_path, path_under, guest_binary_path, no_default,
}
use yocto_qemu_edu_lab.LabConfig.Manifest.{
  validate_build, validate_runtime, validate_supply_chain, validate_development, validate_manifest,
}
use yocto_qemu_edu_lab.LabConfig.Index.{validate_entry, validate_entries, validate_index}
use yocto_qemu_edu_lab.LabConfig.Catalog.{
  Cataloged, Catalog, same_build_value, default_build_parity_data, add_lab, gather_entry, gather,
  catalog_from_index,
}
use yocto_qemu_edu_lab.LabConfig.Select.{
  Selected, select_from, parse_index_bytes, read_catalog, select_lab, manifest_file,
}
use yocto_qemu_edu_lab.LabConfig.Chosen.{IsSound, catalog_from_index-IsSound}
use yocto_qemu_edu_lab.LabConfig.Bytes.{Answers, IsRead, select_lab-IsRead}
use yocto_qemu_edu_lab.LabConfig.Declared.{Declared, validate_index-Declared}
use yocto_qemu_edu_lab.LabConfig.Accepted.{IsRuled, validate_manifest-IsRuled}
use yocto_qemu_edu_lab.LabConfig.Examples.{manifest, category, valid}

abbrev digest : String
digest = "00112233445566778899aabbccddeeff00112233445566778899aabbccddeeff"

abbrev lab_entry : Json
lab_entry = obj (
    field "id" (str "edu")
      (field "manifest" (str "config/labs/edu.json") (field "sha256" (str digest) end)))

abbrev index : String → Fields
index default_lab =
    field "schema_version" (int (pos 1))
      (field "default_lab" (str default_lab) (field "labs" (arr (cons lab_entry nil)) end))

check_index : Fields → Result LabError (Unit {0})
unfolding validate_index validate_entries validate_entry exact_keys object_value string_value
    has_bad_space is_space relative_path path_under is_normalized fullmatch matches lookup get
check_index i = validate_index i

index_valid : validate_index (index "edu") ≡ ok tt
unfolding check_index
index_valid = refl

default_missing : validate_index (index "other") ≡ err no_default
unfolding check_index
default_missing = refl

-- The bytes of a file are one byte that stands for its content.
abbrev read : String → Option (Option (List ℕ))
read path =
    if str_eq path "config/labs/index.json"
    then some (some (1 ∷ []))
    else if str_eq path "config/labs/edu.json"
    then some (some (2 ∷ []))
    else if str_eq path "config/sources.lock.json"
    then some (some (3 ∷ []))
    else none

abbrev decode : List ℕ → Option String
decode raw =
    if same_bytes raw (1 ∷ [])
    then some "index"
    else if same_bytes raw (2 ∷ [])
    then some "manifest"
    else if same_bytes raw (3 ∷ [])
    then some "lock"
    else none

abbrev loads : String → Loaded
loads text =
    if str_eq text "index"
    then tree (obj (index "edu"))
    else if str_eq text "manifest"
    then tree (obj (manifest "qemu_edu"))
    else if str_eq text "lock"
    then tree (obj (lock "build"))
    else invalid

abbrev sha256 : List ℕ → String
sha256 raw = digest

select : Option String → Cataloged Selected
unfolding select_lab read_catalog select_from parse_index_bytes parse_json_bytes guarded
    validate_json_shape walk read_lock parse_lock_bytes validate_lock Validate.validate_build
    validate_release validate_source validate_sources Values.exact_keys Values.object_value
    Values.string_value Values.string_list Values.relative_path Values.path_under Values.git_ref
    catalog_from_index gather gather_entry add_lab default_build_parity_data same_build_value
    validate_manifest validate_build validate_runtime validate_supply_chain validate_development
    validate_index validate_entries validate_entry exact_keys object_value string_value
    integer_value string_list has_bad_space is_space relative_path path_under guest_binary_path
    is_normalized fullmatch matches lookup insert get sorted put_in text_le
select choice =
    select_lab category split_https decode loads sha256 read choice "config/labs/index.json"

abbrev edu : Selected
edu = record {
  lab = "edu";
  manifest = manifest "qemu_edu";
  index_digest = digest;
  manifest_digest = digest;
}

default_selected :
    select_lab category split_https decode loads sha256 read none "config/labs/index.json" ≡ ok edu
unfolding select
default_selected = refl

abbrev reader : String → Cataloged (Fields × String)
reader = manifest_file category split_https decode loads sha256 read

abbrev catalog : Catalog
catalog = record {
  index = index "edu";
  index_digest = digest;
  manifests = ("edu", manifest "qemu_edu") ∷ [];
  digests = ("edu", digest) ∷ [];
}

cataloged : catalog_from_index category reader (index "edu") digest (lock "build") ≡ ok catalog
unfolding select
cataloged = refl

validate_manifest-IsRuled_example : IsRuled (manifest "qemu_edu") "edu"
validate_manifest-IsRuled_example =
    validate_manifest-IsRuled category (manifest "qemu_edu") "edu" valid

validate_index-Declared_example : Declared (index "edu")
validate_index-Declared_example = validate_index-Declared (index "edu") index_valid

catalog_from_index-IsSound_example : IsSound category reader (lock "build") catalog
catalog_from_index-IsSound_example =
    catalog_from_index-IsSound category reader (index "edu") digest (lock "build") catalog cataloged

select_lab-IsRead_example :
    Answers none "edu"
    × IsRead category split_https decode loads sha256 read "edu" (manifest "qemu_edu") digest
select_lab-IsRead_example =
    select_lab-IsRead category split_https decode loads sha256 read none "config/labs/index.json"
      edu default_selected
