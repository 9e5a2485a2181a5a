-- ===== src/LabConfig/Index.antt =====
-- scripts/lab_config.py: `validate_index`. A set is the list of its members, the newest first.
use yocto_qemu_edu_lab.Common.{
  String, member, not, List, [], ◌∷◌, codes, ok, err, ◌>>=◌, ensure, in_turn,
}
use yocto_qemu_edu_lab.Json.{Json, arr, Fields, Items, items}
use yocto_qemu_edu_lab.Regex.{fullmatch}
use yocto_qemu_edu_lab.SourceLock.Paths.{starts_with}
use yocto_qemu_edu_lab.LabConfig.Values.{
  Checked, bad_version, bad_id, not_labs, duplicate_id, not_under, duplicate_path, bad_digest,
  no_default, item_at, exact_keys, object_value, path_under,
}
use yocto_qemu_edu_lab.LabConfig.Profiles.{
  index_keys, index_entry_keys, lab_id_pattern, sha256_pattern,
}
use yocto_qemu_edu_lab.LabConfig.Fields.{is_version, text_at}

pub record Seen : Type 0 where
  pub ids : List String
  pub paths : List String

abbrev pub entry_values : Json → Checked (List Json)
entry_values (arr (Items.cons v vs)) = ok (v ∷ items vs)
entry_values _ = err not_labs

abbrev pub id_checks : Seen → String → List (Checked Unit)
id_checks seen i =
    ensure (fullmatch lab_id_pattern i) bad_id ∷ ensure (not (member i seen.ids)) duplicate_id ∷ []

abbrev pub path_checks : Seen → String → List (Checked Unit)
path_checks seen path =
    ensure (starts_with (codes "config/labs/") (codes path)) not_under
    ∷ ensure (not (member path seen.paths)) duplicate_path
    ∷ []

abbrev pub digest_check : Fields → Checked Unit
digest_check entry =
    text_at "sha256" entry >>= λ digest. ensure (fullmatch sha256_pattern digest) bad_digest

unfoldable pub validate_entry : Seen → Fields → Checked Seen
validate_entry seen entry = exact_keys entry index_entry_keys >>= λ exact.
    text_at "id" entry >>= λ i. in_turn (id_checks seen i) >>= λ new.
    item_at "manifest" entry >>= path_under "config" >>= λ path.
    in_turn (path_checks seen path) >>= λ apart.
    digest_check entry >>= λ hashed. ok (record { ids = i ∷ seen.ids; paths = path ∷ seen.paths })

unfoldable pub validate_entries : List Json → Seen → Checked Seen
unfolding validate_entry
validate_entries [] seen = ok seen
validate_entries (value ∷ values) seen = object_value value >>= λ entry.
    validate_entry seen entry >>= λ next. validate_entries values next

abbrev pub version_check : Fields → Checked Unit
version_check index =
    item_at "schema_version" index >>= λ version. ensure (is_version 1 version) bad_version

unfoldable pub validate_index : Fields → Checked Unit
unfolding validate_entries
validate_index index = exact_keys index index_keys >>= λ exact. version_check index >>= λ known.
    text_at "default_lab" index >>= λ default_lab.
    ensure (fullmatch lab_id_pattern default_lab) bad_id >>= λ named.
    item_at "labs" index >>= entry_values >>= λ values.
    validate_entries values (record { ids = []; paths = [] }) >>= λ seen.
    ensure (member default_lab seen.ids) no_default
