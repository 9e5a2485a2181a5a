-- ===== src/Diagnostics/Context/State.antt =====
-- scripts/diagnostics.py: the state of `Context`, its constructor, `record`, `blocked` and
-- `evidence_projection`.
use yocto_qemu_edu_lab.Common.{
  ℕ, String, Bool, true, false, not, Option, none, some, List, any, if◌then◌else◌, Result, ok, err,
  ◌>>=◌,
}
use yocto_qemu_edu_lab.Json.{Json}
use yocto_qemu_edu_lab.Diagnostics.Checks.{
  CheckId, Status, pass, warning, unavailable, Check, check, same_id, Raised, argument_error,
}
use yocto_qemu_edu_lab.Diagnostics.Patterns.{valid_lab_id}
use yocto_qemu_edu_lab.Diagnostics.Environment.{Bytes, Lock, Manifest, Index, Task, Evidence}

pub data Binding : Type 0 where
  not_recorded bound : Binding

-- `evidence_projection`: what a document shows of its evidence.
pub record Summary : Type 0 where
  pub kind : String
  pub schema_version : ℕ
  pub version : String
  pub revision : String
  pub dirty : Bool
  pub machine : String
  pub image : String
  pub testimage_exit_code : ℕ
  pub result : String
  pub summary : List (String × ℕ)
  pub native_input_sha256 : String
  pub source_lock_sha256 : String
  pub file_sha256 : Option String

unfoldable pub evidence_projection : Evidence → Option String → Summary
evidence_projection d digest = record {
  kind = d.kind;
  schema_version = d.schema_version;
  version = d.version;
  revision = d.revision;
  dirty = d.dirty;
  machine = d.machine;
  image = d.image;
  testimage_exit_code = d.testimage_exit_code;
  result = d.result;
  summary = d.summary;
  native_input_sha256 = d.oeqa_result_sha256;
  source_lock_sha256 = d.source_lock_sha256;
  file_sha256 = digest;
}

abbrev pub Statuses : Type 0
Statuses = CheckId → Option Status

abbrev pub set_status : Statuses → CheckId → Status → Statuses
set_status m i s j = if same_id i j then some s else m j

pub record Context : Type 0 where
  pub lab_id : Option String
  pub version : Option String
  pub revision : Option String
  pub dirty : Option Bool
  pub active_task : Option Task
  pub git_executable : Option String
  pub git_state : Option Status
  pub lock : Option Lock
  pub lock_digest : Option String
  pub catalog : Option Index
  pub index_digest : Option String
  pub manifests : Option (List (String × Manifest))
  pub manifest_digests : Option (List (String × String))
  pub manifest : Option Manifest
  pub manifest_digest : Option String
  pub evidence_raw : Option Bytes
  pub evidence_document : Option Json
  pub evidence_digest : Option String
  pub evidence_summary : Option Summary
  pub lab_binding : Option Binding
  pub subject_matches : Option Bool
  pub statuses : Statuses

abbrev pub fresh : Option String → Context
fresh lab_id = record {
  lab_id = lab_id;
  version = none;
  revision = none;
  dirty = none;
  active_task = none;
  git_executable = none;
  git_state = none;
  lock = none;
  lock_digest = none;
  catalog = none;
  index_digest = none;
  manifests = none;
  manifest_digests = none;
  manifest = none;
  manifest_digest = none;
  evidence_raw = none;
  evidence_document = none;
  evidence_digest = none;
  evidence_summary = none;
  lab_binding = none;
  subject_matches = none;
  statuses = λ i. none;
}

abbrev selector_valid : Option String → Bool
selector_valid none = true
selector_valid (some lab_id) = valid_lab_id lab_id

-- `Context.__init__`
unfoldable pub init : Option String → Result Raised Context
init lab_id = if selector_valid lab_id then ok (fresh lab_id) else err argument_error

-- A method: the check that it makes, and the context after it.
abbrev pub Step : Type 0
Step = Context → Result Raised (Check × Context)

unfoldable pub record_check : CheckId → Status → Step
unfolding check
record_check i s c = check i s >>= λ item.
    ok (item, record c { statuses = set_status c.statuses item.id item.status })

abbrev pub is_open : Option Status → Bool
is_open (some pass) = true
is_open (some warning) = true
is_open _ = false

abbrev pub blocked : List CheckId → Context → Bool
blocked ids c = any (λ i. not (is_open (c.statuses i))) ids

-- The guard that most methods begin with: an upstream check without a result leaves this one
-- unavailable.
unfoldable pub unless_blocked : List CheckId → CheckId → Step → Step
unfolding record_check
unless_blocked ids i m c = if blocked ids c then record_check i unavailable c else m c
