-- ===== src/SourceLock/Git.antt =====
-- scripts/source_lock.py: Git and the file system as its checkouts use them. A path is named by
-- its text in the lock, below the root of the repository.
use Prim.Native.Char.{Char, code}
use yocto_qemu_edu_lab.Common.{
  ℕ, String, str_eq, strip, Bool, false, ◌||◌, not, Option, none, some, List, [], ◌∷◌,
  if◌then◌else◌, ◌==◌, Result, ok, err,
}

-- `subprocess.CompletedProcess`
pub record Completed : Type 0 where
  pub returncode : ℕ
  pub stdout : String

abbrev pub succeeded : Completed → Bool
succeeded result = result.returncode == 0

-- What can be read at a path. `inside` and `has` are `locked_path`, which fails where a path leads
-- out of its root, with `exists` below it for `has`. `query` runs a command of Git that reads.
pub record View : Type 0 where
  pub inside : Bool
  pub exists : Bool
  pub is_dir : Bool
  pub has : String → Option Bool
  pub query : List String → Completed

-- What the checkouts use of the world. An operation that writes gives the world after it, also
-- where it fails.
pub record Git : Type 1 where
  pub World : Type 0
  pub view : World → String → View
  pub make_parent : World → String → World
  pub init : World → String → Completed × World
  pub add_remote : World → String → String → Completed × World
  pub fetch : World → String → List String → Completed × World
  pub checkout : World → String → String → Completed × World

pub data InspectError : Type 0 where
  is_missing not_worktree other_origin other_format other_head not_detached no_head : InspectError
  is_dirty : InspectError
  path_missing : String → InspectError

pub data SyncError : Type 0 where
  escapes git_failed no_worktree refused_origin refused_format refused_dirty : SyncError
  refused_head not_detached missing_offline init_failed unavailable_offline : SyncError
  other_release not_on_branch : SyncError
  not_ready : List InspectError → SyncError

abbrev pub Synced : Type 0 → Type 0
Synced = Result SyncError

-- the fields of a source of a validated lock
pub record Source : Type 0 where
  pub id : String
  pub url : String
  pub branch_ref : String
  pub release_ref : String
  pub commit : String
  pub object_format : String
  pub path : String
  pub required_paths : List String

abbrev pub is_worktree : List String
is_worktree = "rev-parse" ∷ "--is-inside-work-tree" ∷ []

abbrev pub ask_origin : List String
ask_origin =
    "config" ∷ "--local" ∷ "--no-includes" ∷ "--null" ∷ "--get-all" ∷ "remote.origin.url" ∷ []

abbrev pub ask_format : List String
ask_format = "rev-parse" ∷ "--show-object-format" ∷ []

abbrev pub ask_head : List String
ask_head = "rev-parse" ∷ "--verify" ∷ "HEAD" ∷ []

abbrev pub ask_branch : List String
ask_branch = "symbolic-ref" ∷ "-q" ∷ "HEAD" ∷ []

abbrev pub ask_status : List String
ask_status = "status" ∷ "--porcelain=v1" ∷ "--untracked-files=normal" ∷ []

-- `text.split("\0")`
abbrev pub onto : Char → List String → List String
onto c [] = String.◌∷◌ c String.[] ∷ []
onto c (part ∷ parts) = String.◌∷◌ c part ∷ parts

unfoldable pub split_nul : String → List String
split_nul String.[] = String.[] ∷ []
split_nul (String.◌∷◌ c s) =
    let rest = split_nul s in if code c == 0 then String.[] ∷ rest else onto c rest

-- `text.endswith("\0")`
unfoldable pub ends_in_nul : String → Bool
ends_in_nul String.[] = false
ends_in_nul (String.◌∷◌ c s) = if str_eq s "" then code c == 0 else ends_in_nul s

abbrev pub one_value : List String → Option String
one_value (value ∷ last ∷ []) = if str_eq last "" then some value else none
one_value _ = none

abbrev pub raw_origin : Completed → Option String
raw_origin result =
    if not (succeeded result) || not (ends_in_nul result.stdout)
    then none
    else one_value (split_nul result.stdout)

-- `git(path, ...).stdout.strip()`, which raises where the command fails
abbrev pub git_output : View → List String → Synced String
git_output v arguments =
    let result = v.query arguments in
    if succeeded result then ok (strip result.stdout) else err git_failed

abbrev pub origin_url : View → Option String
origin_url v = raw_origin (v.query ask_origin)
