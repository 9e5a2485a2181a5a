-- ===== src/SourceLock/Inspect.antt =====
-- scripts/source_lock.py: `inspect_source`, `preflight_existing` and `status_result`, which read.
use yocto_qemu_edu_lab.Common.{
  String, str_eq, strip, Bool, true, false, ◌&&◌, not, Option, none, some, List, [], ◌∷◌, ◌++◌, all,
  if◌then◌else◌, ok, err, ◌>>=◌, ensure,
}
use yocto_qemu_edu_lab.SourceLock.Git.{
  Completed, succeeded, View, Git, InspectError, is_missing, not_worktree, other_origin,
  other_format, other_head, no_head, is_dirty, path_missing, SyncError, escapes, no_worktree,
  refused_origin, refused_format, refused_dirty, refused_head, Synced, Source, is_worktree,
  ask_format, ask_head, ask_branch, ask_status, git_output, origin_url,
}

pub data CheckoutState : Type 0 where
  missing invalid drifted ready : CheckoutState

-- the result of `inspect_source`, without the fields that are copies of the source
pub record Inspection : Type 0 where
  pub actual_commit : Option String
  pub clean : Option Bool
  pub detached : Option Bool
  pub origin : Option String
  pub state : CheckoutState
  pub errors : List InspectError

abbrev pub stopped : CheckoutState → InspectError → Inspection
stopped state error = record {
  actual_commit = none;
  clean = none;
  detached = none;
  origin = none;
  state = state;
  errors = error ∷ [];
}

abbrev pub unless : Bool → InspectError → List InspectError
unless true error = []
unless false error = error ∷ []

abbrev pub is_value : Option String → String → Bool
is_value none text = false
is_value (some found) text = str_eq found text

-- `{"ready" if not errors}`
abbrev pub state_of : List InspectError → CheckoutState
state_of [] = ready
state_of (error ∷ errors) = drifted

-- what is said of a HEAD that was found or not
abbrev pub head_errors : Completed → Completed → String → List InspectError
head_errors head branch commit =
    if succeeded head
    then unless (str_eq (strip head.stdout) commit) other_head
      ++ unless (not (succeeded branch)) InspectError.not_detached
    else no_head ∷ []

-- `path.is_dir()` and Git knows it
abbrev pub is_checkout : View → Bool
is_checkout v = v.is_dir && succeeded (v.query is_worktree)

abbrev pub required_errors : View → List String → Synced (List InspectError)
required_errors v [] = ok []
required_errors v (required ∷ rest) = elim (v.has required) [
  | none ↦ err escapes
  | some there ↦
      required_errors v rest >>= λ errors. ok (unless there (path_missing required) ++ errors)
]

abbrev pub format_is : View → Source → Bool
format_is v source =
    let found = v.query ask_format in
    succeeded found && str_eq (strip found.stdout) source.object_format

abbrev pub found_commit : Completed → Option String
found_commit head = if succeeded head then some (strip head.stdout) else none

abbrev pub found_detached : Completed → Completed → Option Bool
found_detached head branch = if succeeded head then some (not (succeeded branch)) else none

abbrev pub early_errors : View → Source → List InspectError
early_errors v source =
    unless (is_value (origin_url v) source.url) other_origin
    ++ (unless (format_is v source) other_format
        ++ head_errors (v.query ask_head) (v.query ask_branch) source.commit)

-- the part of `inspect_source` after a worktree is found
unfoldable pub inspect_checkout : View → Source → Synced Inspection
inspect_checkout v source = git_output v ask_status >>= λ dirty.
    required_errors v source.required_paths >>= λ absent.
    let errors = early_errors v source ++ (unless (str_eq dirty "") is_dirty ++ absent) in
    ok (record {
      actual_commit = found_commit (v.query ask_head);
      clean = some (str_eq dirty "");
      detached = found_detached (v.query ask_head) (v.query ask_branch);
      origin = origin_url v;
      state = state_of errors;
      errors = errors;
    })

unfoldable pub inspect_source : View → Source → Synced Inspection
unfolding inspect_checkout
inspect_source v source = ensure v.inside escapes >>= λ located.
    if not v.exists
    then ok (stopped missing is_missing)
    else if not (is_checkout v)
    then ok (stopped invalid not_worktree)
    else inspect_checkout v source

abbrev pub head_checks : View → Source → Synced Bool
head_checks v source =
    ensure (str_eq (strip (v.query ask_head).stdout) source.commit) refused_head >>= λ same.
    ensure (not (succeeded (v.query ask_branch))) SyncError.not_detached >>= λ detached. ok true

-- the tests on a HEAD, and whether there is one
abbrev pub preflight_head : View → Source → Synced Bool
preflight_head v source = if succeeded (v.query ask_head) then head_checks v source else ok false

abbrev pub preflight_checkout : View → Source → Synced Bool
preflight_checkout v source = ensure (is_checkout v) no_worktree >>= λ known.
    ensure (is_value (origin_url v) source.url) refused_origin >>= λ ours.
    git_output v ask_format >>= λ format.
    ensure (str_eq format source.object_format) refused_format >>= λ same.
    git_output v ask_status >>= λ dirty.
    ensure (str_eq dirty "") refused_dirty >>= λ clean. preflight_head v source

-- The path of the result is that of the source.
unfoldable pub preflight_existing : View → Source → Synced Bool
preflight_existing v source = ensure v.inside escapes >>= λ located.
    if not v.exists then ok false else preflight_checkout v source

abbrev pub is_ready : Inspection → Bool
is_ready result = elim result.state [ ready ↦ true | _ ↦ false ]

module _ (G : Git) where
  abbrev pub inspect_all : G.World → List Source → Synced (List Inspection)
  inspect_all w [] = ok []
  inspect_all w (source ∷ sources) = inspect_source (G.view w source.path) source >>= λ result.
      inspect_all w sources >>= λ results. ok (result ∷ results)

  -- `ok` and `sources` of `status_result`
  unfoldable pub status_result : G.World → List Source → Synced (Bool × List Inspection)
  status_result w sources = inspect_all w sources >>= λ results. ok (all is_ready results, results)
