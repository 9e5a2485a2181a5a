-- ===== src/SourceLock/Materialized.antt =====
-- scripts/source_lock.py: the sources of a lock as the checkouts take them, and a synchronization
-- for a lock that was validated.
use yocto_qemu_edu_lab.Common.{
  String, ◌≡◌, refl, ap, ◌∙◌, Bool, true, Option, some, List, [], ◌∷◌, map, all, ok, and-true,
}
use yocto_qemu_edu_lab.Json.{Json, str, arr, obj, Fields, get, items}
use yocto_qemu_edu_lab.SourceLock.Validate.{Url, validate_lock}
use yocto_qemu_edu_lab.SourceLock.Spec.{text_at, path_of, apart, locked, is_locked}
use yocto_qemu_edu_lab.SourceLock.Locked.{validate_lock-locked}
use yocto_qemu_edu_lab.SourceLock.Git.{Git, Source}
use yocto_qemu_edu_lab.SourceLock.Inspect.{status_result}
use yocto_qemu_edu_lab.SourceLock.Sync.{SyncedSource, sync_result}
use yocto_qemu_edu_lab.SourceLock.Ready.{ready_inspection}
use yocto_qemu_edu_lab.SourceLock.Separate.{IsSeparate}
use yocto_qemu_edu_lab.SourceLock.Status.{sync_result-status_result}

abbrev texts_in : List Json → List String
texts_in [] = []
texts_in (str text ∷ values) = text ∷ texts_in values
texts_in (value ∷ values) = texts_in values

abbrev text_list : Option Json → List String
text_list (some (arr vs)) = texts_in (items vs)
text_list _ = []

-- `source["..."]`, for each key of a source of a validated lock
abbrev pub source_of : Fields → Source
source_of source = record {
  id = text_at "id" source;
  url = text_at "url" source;
  branch_ref = text_at "branch_ref" source;
  release_ref = text_at "release_ref" source;
  commit = text_at "commit" source;
  object_format = text_at "object_format" source;
  path = text_at "path" source;
  required_paths = text_list (get "required_paths" source);
}

abbrev objects_in : List Json → List Source
objects_in [] = []
objects_in (obj source ∷ values) = source_of source ∷ objects_in values
objects_in (value ∷ values) = objects_in values

abbrev source_list : Option Json → List Source
source_list (some (arr vs)) = objects_in (items vs)
source_list _ = []

-- `data["sources"]`, of a validated lock
abbrev pub sources_of : Fields → List Source
sources_of lock = source_list (get "sources" lock)

objects_in-map : (read : List Fields) → objects_in (map obj read) ≡ map source_of read
objects_in-map [] = refl
objects_in-map (source ∷ read) = ap (λ ss. source_of source ∷ ss) (objects_in-map read)

map-path : (read : List Fields) → map (λ s. s.path) (map source_of read) ≡ map path_of read
map-path [] = refl
map-path (source ∷ read) = ap (λ ps. path_of source ∷ ps) (map-path read)

locked-apart :
    (version series : String) (read : List Fields)
    → locked version series read ≡ true
    → apart (map path_of read) ≡ true
unfolding locked
locked-apart version series read h =
    let (front, fine) = and-true _ (all (is_locked version series) read) h in
    let (earlier, paths) = and-true _ (apart (map path_of read)) front in paths

-- When a lock is valid and a synchronization of its sources returns, the status of the lock in the
-- world after it is ok, and reports every source as ready, if an operation of Git on one path
-- leaves what can be read at paths apart from it alone.
pub validate_lock-status_result :
    (urlsplit : String → Option Url) (lock : Fields) (G : Git) (laws : IsSeparate G)
    (offline : Bool) (w : G.World) (results : List SyncedSource) (v : G.World)
    → validate_lock urlsplit lock ≡ ok tt
    → sync_result G offline (sources_of lock) w ≡ (ok results, v)
    → status_result G v (sources_of lock)
      ≡ ok (true, map (λ s. ready_inspection (G.view v s.path) s) (sources_of lock))
validate_lock-status_result urlsplit lock G laws offline w results v valid synced =
    let (release, values, read, release_at, values_at, made, fine) =
      validate_lock-locked urlsplit lock valid in
    let whole : sources_of lock ≡ map source_of read =
      ap source_list values_at ∙ ap objects_in made ∙ objects_in-map read in
    let separate : apart (map (λ s. s.path) (sources_of lock)) ≡ true =
      ap (λ ss. apart (map (λ s. s.path) ss)) whole
      ∙ ap apart (map-path read)
      ∙ locked-apart _ _ read fine in
    sync_result-status_result G laws offline (sources_of lock) w results v separate synced
