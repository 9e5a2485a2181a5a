-- ===== src/SourceLock/Sync.antt =====
-- scripts/source_lock.py: `sync_source` and `sync_result`. A call that changes the world gives its
-- result and the world after it, also where it raises.

use yocto_qemu_edu_lab.Common.{
  String, str_eq, Bool, true, false, List, [], ◌∷◌, if◌then◌else◌, ok, err, ◌>>=◌, ensure,
}
use yocto_qemu_edu_lab.SourceLock.Validate.{◌▸◌}
use yocto_qemu_edu_lab.SourceLock.Git.{
  Completed, succeeded, Git, SyncError, git_failed, missing_offline, init_failed,
  unavailable_offline, other_release, not_on_branch, not_ready, Synced, Source, git_output,
}
use yocto_qemu_edu_lab.SourceLock.Inspect.{Inspection, inspect_source, preflight_existing, is_ready}

abbrev pub project_ref_prefix : String
project_ref_prefix = "refs/yocto-qemu-edu-lab"

abbrev pub branch_target : Source → String
branch_target source = project_ref_prefix ▸ "/" ▸ source.id ▸ "/branch"

abbrev pub release_target : Source → String
release_target source = project_ref_prefix ▸ "/" ▸ source.id ▸ "/release"

-- `f"+{source['branch_ref']}:{branch_target}"` and the same of the release
abbrev pub refspecs : Source → List String
refspecs source =
    ("+" ▸ source.branch_ref ▸ ":" ▸ branch_target source)
    ∷ ("+" ▸ source.release_ref ▸ ":" ▸ release_target source)
    ∷ []

abbrev pub ask_commit : Source → List String
ask_commit source = "cat-file" ∷ "-e" ∷ (source.commit ▸ "^{commit}") ∷ []

abbrev pub ask_release : Source → List String
ask_release source = "rev-parse" ∷ (release_target source ▸ "^{commit}") ∷ []

abbrev pub ask_ancestor : Source → List String
ask_ancestor source = "merge-base" ∷ "--is-ancestor" ∷ source.commit ∷ branch_target source ∷ []

-- the result with the field `created`
pub record SyncedSource : Type 0 where
  pub inspection : Inspection
  pub created : Bool

module _ (G : Git) where
  abbrev pub Act : Type 0 → Type 0
  Act A = G.World → Synced A × G.World

  -- what follows a call, unless it raised
  abbrev pub continue : {A B : Type 0} → (A → Act B) → Synced A × G.World → Synced B × G.World
  continue next (ok a, w) = next a w
  continue next (err e, w) = (err e, w)

  abbrev pub after : {A B : Type 0} → Act A → (A → Act B) → Act B
  after m next w = continue next (m w)

  -- something that only reads
  abbrev pub reading : {A : Type 0} → (G.World → Synced A) → Act A
  reading look w = (look w, w)

  -- `git(...)` that writes, which raises where the command fails
  abbrev pub running : SyncError → (G.World → Completed × G.World) → Act Unit
  running error command w = let (result, w') = command w in (ensure (succeeded result) error, w')

  abbrev pub create : Source → Act Unit
  create source w =
      after (running init_failed (λ v. G.init (G.make_parent v source.path) source.path))
        (λ made. running git_failed (λ v. G.add_remote v source.path source.url)) w

  -- what is needed of a source that is not there; whether it was created
  abbrev pub ensure_there : Bool → Source → Act Bool
  ensure_there offline source w =
      if (G.view w source.path).exists
      then (ok false, w)
      else if offline
      then (err missing_offline, w)
      else after (create source) (λ made v. (ok true, v)) w

  abbrev pub is_available : Source → G.World → Synced Unit
  is_available source w =
      ensure (succeeded ((G.view w source.path).query (ask_commit source))) unavailable_offline

  abbrev pub is_release : Source → G.World → Synced Unit
  is_release source w = git_output (G.view w source.path) (ask_release source) >>= λ release_commit.
      ensure (str_eq release_commit source.commit) other_release >>= λ same.
      ensure (succeeded ((G.view w source.path).query (ask_ancestor source))) not_on_branch

  abbrev pub obtain : Bool → Source → Act Unit
  obtain true source = reading (is_available source)
  obtain false source =
      after (running git_failed (λ v. G.fetch v source.path (refspecs source)))
        (λ fetched. reading (is_release source))

  abbrev pub check_out : Bool → Source → Act Unit
  check_out true source w = (ok tt, w)
  check_out false source w = running git_failed (λ v. G.checkout v source.path source.commit) w

  abbrev pub confirm : Bool → Source → Inspection → Synced SyncedSource
  confirm created source result = ensure (is_ready result) (not_ready result.errors) >>= λ fine.
      ok (record { inspection = result; created = created })

  unfoldable pub sync_source : Bool → Source → Act SyncedSource
  sync_source offline source =
      after (reading (λ w. preflight_existing (G.view w source.path) source)) (λ has_head.
        after (ensure_there offline source) (λ created. after (obtain offline source) (λ obtained.
          after (check_out has_head source) (λ checked.
            reading
              (λ w. inspect_source (G.view w source.path) source >>= confirm created source)))))

  -- `sources` of `sync_result`, whose `ok` is true
  unfoldable pub sync_result : Bool → List Source → Act (List SyncedSource)
  unfolding sync_source
  sync_result offline [] w = (ok [], w)
  sync_result offline (source ∷ sources) w =
      after (sync_source offline source)
        (λ result. after (sync_result offline sources) (λ results v. (ok (result ∷ results), v))) w
