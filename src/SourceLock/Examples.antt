-- ===== src/SourceLock/Examples.antt =====
-- Tests of the model of scripts/source_lock.py on one lock, and its theorems there.
use yocto_qemu_edu_lab.Common.{
  String, ◌≡◌, refl, ◌↔◌, lookup, true, false, Option, some, List, [], ◌∷◌, map, Result, ok, err,
}
use yocto_qemu_edu_lab.Json.{
  Json, int, str, arr, obj, pos, Items, nil, cons, Fields, end, field, items, get,
}
use yocto_qemu_edu_lab.Regex.{fullmatch}
use yocto_qemu_edu_lab.SourceLock.Paths.{is_normalized}
use yocto_qemu_edu_lab.SourceLock.Values.{
  LockError, no_part, exact_keys, object_value, string_value, string_list, relative_path,
  path_under, git_ref,
}
use yocto_qemu_edu_lab.SourceLock.Validate.{
  Url, validate_release, validate_build, validate_source, validate_lock,
}
use yocto_qemu_edu_lab.SourceLock.Spec.{text_at, locked}
use yocto_qemu_edu_lab.SourceLock.Normal.{is_relative, relative_path-is_relative}
use yocto_qemu_edu_lab.SourceLock.Locked.{validate_lock-locked}

abbrev pub texts : List String → Items
texts [] = nil
texts (t ∷ ts) = cons (str t) (texts ts)

abbrev commit : String
commit = "00112233445566778899aabbccddeeff00112233"

abbrev source : String → String → String → String → Json
source i url branch path = obj (
    field "id" (str i) (
      field "type" (str "git") (
        field "url" (str url) (
          field "branch_ref" (str branch) (
            field "release_ref" (str "refs/tags/yocto-6.0") (
              field "commit" (str commit) (
                field "object_format" (str "sha1") (
                  field "path" (str path)
                    (field "required_paths" (arr (texts ("bin" ∷ []))) end)))))))))

abbrev sources : Items
sources =
    cons
      (source "bitbake" "https://git.openembedded.org/bitbake" "refs/heads/2.18" "layers/bitbake")
      (cons
        (source "openembedded-core" "https://git.openembedded.org/openembedded-core"
          "refs/heads/wrynose" "layers/openembedded-core")
        (cons
          (source "meta-yocto" "https://git.yoctoproject.org/meta-yocto" "refs/heads/wrynose"
            "layers/meta-yocto")
          nil))

abbrev release : Fields
release =
    field "project" (str "yocto") (field "version" (str "6.0") (field "series" (str "wrynose") end))

abbrev build : String → Fields
build dir = field "build_system" (str "openembedded") (
    field "environment_script" (str "oe-init") (
      field "bitbake_bin" (str "layers/bitbake/bin") (
        field "build_dir" (str dir) (
          field "distro" (str "poky") (
            field "machine" (str "qemux86-64") (
              field "targets" (arr (texts ("image" ∷ [])))
                (field "layers" (arr (texts ("meta-qemu-edu" ∷ []))) end)))))))

abbrev pub lock : String → Fields
lock dir = field "schema_version" (int (pos 1)) (
    field "release" (obj release)
      (field "build" (obj (build dir)) (field "sources" (arr sources) end)))

abbrev pub split_https : String → Option Url
split_https text = some (record {
  scheme = "https";
  has_hostname = true;
  has_username = false;
  has_password = false;
  has_query = false;
  has_fragment = false;
})

-- A proof that opens this opens all that `validate_lock` calls.
run : Fields → Result LockError (Unit {0})
unfolding validate_lock validate_release validate_build validate_source exact_keys object_value
    string_value string_list relative_path path_under git_ref is_normalized fullmatch lookup get
run fields = validate_lock split_https fields

pub accepted : validate_lock split_https (lock "build") ≡ ok tt
unfolding run
accepted = refl

-- A build directory that is a dot is normalized, has no first part, and stops the validator.
dot_stops : validate_lock split_https (lock ".") ≡ err no_part
unfolding run
dot_stops = refl

validate_lock-locked_example :
    (found : Fields) × (values : Items) × (read : List Fields) × (get "release" (lock "build")
      ≡ some (obj found))
    × (get "sources" (lock "build") ≡ some (arr values))
    × (items values ≡ map obj read)
    × (locked (text_at "version" found) (text_at "series" found) read ≡ true)
validate_lock-locked_example = validate_lock-locked split_https (lock "build") accepted

relative_path-is_relative_example :
    (relative_path (str "layers/bitbake") ≡ ok "layers/bitbake")
    ↔ (is_relative "layers/bitbake" ≡ true)
relative_path-is_relative_example = relative_path-is_relative "layers/bitbake"
