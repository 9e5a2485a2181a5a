-- ===== src/SourceLock/Checkouts.antt =====
-- A small world of checkouts, in which a checkout of a commit makes it ready, and the theorems on
-- the checkouts of scripts/source_lock.py there.

use yocto_qemu_edu_lab.Common.{
  String, str_eq, eq_iff, member, lstrip, rstrip, strip, is_space, ◌≡◌, refl, ◌↔◌, Bool, true,
  false, some, List, [], ◌∷◌, map, arith, if◌then◌else◌, ok, err, same_list,
}
use yocto_qemu_edu_lab.Json.{get}
use yocto_qemu_edu_lab.SourceLock.Validate.{◌▸◌}
use yocto_qemu_edu_lab.SourceLock.Git.{
  Completed, View, Git, missing_offline, Synced, Source, ask_origin, ask_format, ask_branch,
  ask_status, split_nul, ends_in_nul,
}
use yocto_qemu_edu_lab.SourceLock.Inspect.{
  Inspection, inspect_source, inspect_checkout, preflight_existing, status_result, is_ready,
}
use yocto_qemu_edu_lab.SourceLock.Sync.{SyncedSource, sync_source, sync_result}
use yocto_qemu_edu_lab.SourceLock.Ready.{IsReady, inspect_source_lem, ready_inspection}
use yocto_qemu_edu_lab.SourceLock.Kept.{sync_source-offline, sync_source_again}
use yocto_qemu_edu_lab.SourceLock.Examples.{lock, split_https, accepted}
use yocto_qemu_edu_lab.SourceLock.Materialized.{sources_of, validate_lock-status_result}
use yocto_qemu_edu_lab.SourceLock.Separate.{are_separate, IsSeparate}

abbrev commit : String
commit = "00112233445566778899aabbccddeeff00112233"

abbrev url_at : String → String
url_at path =
    if str_eq path "layers/bitbake"
    then "https://git.openembedded.org/bitbake"
    else if str_eq path "layers/openembedded-core"
    then "https://git.openembedded.org/openembedded-core"
    else "https://git.yoctoproject.org/meta-yocto"

abbrev said : String → Completed
said text = record { returncode = 0; stdout = text }

abbrev failed : Completed
failed = record { returncode = 1; stdout = "" }

-- what Git answers of a checkout that is ready
abbrev answer : String → List String → Completed
answer path arguments =
    if same_list arguments ask_origin
    then said (url_at path ▸ "\0")
    else if same_list arguments ask_format
    then said "sha1"
    else if same_list arguments ask_branch
    then failed
    else if same_list arguments ask_status
    then said ""
    else said commit

abbrev view_of : String → Bool → View
view_of path there = record {
  inside = true;
  exists = there;
  is_dir = there;
  has = λ required. some true;
  query = answer path;
}

-- The world is the paths that are checked out.
abbrev world : Git
world = record {
  World = List String;
  view = λ w p. view_of p (member p w);
  make_parent = λ w p. w;
  init = λ w p. (said "", w);
  add_remote = λ w p u. (said "", w);
  fetch = λ w p refs. (said "", w);
  checkout = λ w p c. (said "", p ∷ w);
}

member-apart :
    (p q : String) (w : List String) → are_separate p q ≡ true → member q (p ∷ w) ≡ member q w
member-apart p q w h = ground (arith, eq_iff p q, eq_iff q p)

world-IsSeparate : IsSeparate world
world-IsSeparate = record {
  after_make_parent = λ w p q h. refl;
  after_init = λ w p q h. refl;
  after_add_remote = λ w p u q h. refl;
  after_fetch = λ w p refs q h. refl;
  after_checkout = λ w p c q h. rw (member-apart p q w h) refl;
}

abbrev source : String → String → Source
source i path = record {
  id = i;
  url = url_at path;
  branch_ref = "refs/heads/2.18";
  release_ref = "refs/tags/yocto-6.0";
  commit = commit;
  object_format = "sha1";
  path = path;
  required_paths = "bin" ∷ [];
}

abbrev bitbake : Source
bitbake = source "bitbake" "layers/bitbake"

abbrev sources : List Source
sources = bitbake ∷ source "openembedded-core" "layers/openembedded-core" ∷ []

synchronize : Bool → List Source → List String → Synced (List SyncedSource) × List String
unfolding sync_result sync_source preflight_existing inspect_source inspect_checkout strip lstrip
    rstrip is_space split_nul ends_in_nul get
synchronize offline selected w = sync_result world offline selected w

abbrev made : Source → Bool → SyncedSource
made s created = record { inspection = ready_inspection (view_of s.path true) s; created = created }

synchronized : sync_result world false sources [] ≡ (
  ok (made bitbake true ∷ made (source "openembedded-core" "layers/openembedded-core") true ∷ []),
  "layers/openembedded-core" ∷ "layers/bitbake" ∷ [],
)
unfolding synchronize
synchronized = refl

refused : sync_result world true sources [] ≡ (err missing_offline, [])
unfolding synchronize
refused = refl

bitbake-IsReady : IsReady (view_of "layers/bitbake" true) bitbake
unfolding synchronize
bitbake-IsReady = record {
  inside = refl;
  exists = refl;
  known = refl;
  origin = refl;
  format = refl;
  has_head = refl;
  head = refl;
  detached = refl;
  status = refl;
  clean = refl;
  required = (refl, tt);
}

inspect_source_lem_example :
    (((r : Inspection) × (inspect_source (view_of "layers/bitbake" true) bitbake ≡ ok r)
        × (is_ready r ≡ true))
      ↔ IsReady (view_of "layers/bitbake" true) bitbake)
    × (((r : Inspection) × (inspect_source (view_of "layers/bitbake" true) bitbake ≡ ok r)
          × (r.errors ≡ []))
        ↔ IsReady (view_of "layers/bitbake" true) bitbake)
inspect_source_lem_example = inspect_source_lem (view_of "layers/bitbake" true) bitbake

sync_source-offline_example :
    (sync_source world true bitbake ("layers/bitbake" ∷ [])).1 ≡ "layers/bitbake" ∷ []
sync_source-offline_example = sync_source-offline world bitbake ("layers/bitbake" ∷ []) refl refl

sync_source_again_example :
    sync_source world true bitbake ("layers/bitbake" ∷ [])
    ≡ (ok (made bitbake false), "layers/bitbake" ∷ [])
sync_source_again_example =
    sync_source_again world bitbake ("layers/bitbake" ∷ []) bitbake-IsReady refl

abbrev all_three : List String
all_three = "layers/meta-yocto" ∷ "layers/openembedded-core" ∷ "layers/bitbake" ∷ []

lock_synchronized :
    sync_result world true (sources_of (lock "build")) all_three
    ≡ (ok (map (λ s. made s false) (sources_of (lock "build"))), all_three)
unfolding synchronize
lock_synchronized = refl

validate_lock-status_result_example :
    status_result world all_three (sources_of (lock "build"))
    ≡ ok (true, map (λ s. ready_inspection (view_of s.path true) s) (sources_of (lock "build")))
validate_lock-status_result_example =
    validate_lock-status_result split_https (lock "build") world world-IsSeparate true all_three
      (map (λ s. made s false) (sources_of (lock "build"))) all_three accepted lock_synchronized
