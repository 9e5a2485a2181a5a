-- ===== src/Diagnostics/Checks.antt =====
-- scripts/diagnostics.py: the closed tables CHECKS and SEQUENCES, `check` and `aggregate`.
use yocto_qemu_edu_lab.Common.{
  ℕ, String, Bool, true, false, ◌&&◌, ◌||◌, List, [], ◌∷◌, any, ◌==◌, if◌then◌else◌, Result, ok,
  err,
}

-- The keys of CHECKS.
pub data CheckId : Type 0 where
  project_version repository_git workflow_task source_lock lab_catalog lab_selection : CheckId
  repository_clean tool_git tool_ssh source_bitbake source_openembedded_core : CheckId
  source_meta_yocto build_local_conf build_bblayers_conf evidence_file evidence_document : CheckId
  evidence_result evidence_inputs evidence_subject : CheckId

pub data Status : Type 0 where
  pass warning fail unavailable : Status

-- What the methods may raise.
pub data Raised : Type 0 where
  unsupported_status argument_error stop_iteration unknown_command : Raised
  wrong_order invalid_document propagated : Raised

abbrev pub rank : CheckId → ℕ
rank project_version = 0
rank repository_git = 1
rank workflow_task = 2
rank source_lock = 3
rank lab_catalog = 4
rank lab_selection = 5
rank repository_clean = 6
rank tool_git = 7
rank tool_ssh = 8
rank source_bitbake = 9
rank source_openembedded_core = 10
rank source_meta_yocto = 11
rank build_local_conf = 12
rank build_bblayers_conf = 13
rank evidence_file = 14
rank evidence_document = 15
rank evidence_result = 16
rank evidence_inputs = 17
rank evidence_subject = 18

abbrev pub same_id : CheckId → CheckId → Bool
same_id a b = rank a == rank b

abbrev pub is_pass : Status → Bool
is_pass pass = true
is_pass _ = false

abbrev pub is_warning : Status → Bool
is_warning warning = true
is_warning _ = false

abbrev pub is_fail : Status → Bool
is_fail fail = true
is_fail _ = false

abbrev pub is_unavailable : Status → Bool
is_unavailable unavailable = true
is_unavailable _ = false

-- An entry of CHECKS: whether the check is required, and its three summaries.
pub record Texts : Type 0 where
  pub required : Bool
  pub passed : String
  pub failed : String
  pub unavailable : String

abbrev texts_of : Bool → String → String → String → Texts
texts_of r p f u = record { required = r; passed = p; failed = f; unavailable = u }

unfoldable pub checks : CheckId → Texts
checks project_version =
    texts_of true "Project version is valid." "Project version is invalid."
      "Project version is unavailable."
checks repository_git =
    texts_of true "Repository identity is valid." "Repository identity is invalid."
      "Repository identity is unavailable."
checks workflow_task =
    texts_of true "Maintenance task state is valid." "Maintenance task state is invalid."
      "Maintenance task state is unavailable."
checks source_lock =
    texts_of true "Source lock is valid." "Source lock is invalid." "Source lock is unavailable."
checks lab_catalog =
    texts_of true "Lab catalog is valid." "Lab catalog is invalid."
      "Lab catalog could not be evaluated."
checks lab_selection =
    texts_of true "Selected lab is valid." "Selected lab is inconsistent."
      "Selected lab could not be evaluated."
checks repository_clean =
    texts_of false "Repository worktree is clean." "Repository worktree has uncommitted changes."
      "Repository cleanliness could not be evaluated."
checks tool_git =
    texts_of true "Required Git executable is available."
      "Git executable does not meet the diagnostic contract."
      "Required Git executable is unavailable."
checks tool_ssh =
    texts_of true "Required SSH executable is available."
      "SSH executable does not meet the diagnostic contract."
      "Required SSH executable is unavailable."
checks source_bitbake =
    texts_of true "BitBake checkout matches the source lock."
      "BitBake checkout differs from the source lock." "BitBake checkout is unavailable."
checks source_openembedded_core =
    texts_of true "OpenEmbedded Core checkout matches the source lock."
      "OpenEmbedded Core checkout differs from the source lock."
      "OpenEmbedded Core checkout is unavailable."
checks source_meta_yocto =
    texts_of true "Meta-Yocto checkout matches the source lock."
      "Meta-Yocto checkout differs from the source lock." "Meta-Yocto checkout is unavailable."
checks build_local_conf =
    texts_of true "Declared local configuration file is present."
      "Declared local configuration path is invalid."
      "Declared local configuration file is unavailable."
checks build_bblayers_conf =
    texts_of true "Declared layer configuration file is present."
      "Declared layer configuration path is invalid."
      "Declared layer configuration file is unavailable."
checks evidence_file =
    texts_of true "Selected evidence file is readable and bounded."
      "Selected evidence path violates the file contract." "Selected evidence file is unavailable."
checks evidence_document =
    texts_of true "Evidence document is valid." "Evidence document is invalid."
      "Evidence document could not be evaluated."
checks evidence_result =
    texts_of true "Evidence records a clean passing suite."
      "Evidence does not record a clean passing suite." "Evidence result could not be evaluated."
checks evidence_inputs =
    texts_of true "Evidence inputs match the selected project inputs."
      "Evidence inputs differ from the selected project inputs."
      "Evidence inputs could not be evaluated."
checks evidence_subject =
    texts_of false "Evidence subject matches the current revision."
      "Evidence describes a different clean revision."
      "Evidence subject match could not be evaluated."

pub data Command : Type 0 where
  status doctor inspect evidence : Command

abbrev pub sequences : Command → List CheckId
sequences status =
    project_version ∷ repository_git ∷ workflow_task ∷ source_lock ∷ lab_catalog ∷ lab_selection
    ∷ repository_clean ∷ []
sequences doctor =
    project_version ∷ repository_git ∷ workflow_task ∷ source_lock ∷ lab_catalog ∷ lab_selection
    ∷ tool_git ∷ tool_ssh ∷ source_bitbake ∷ source_openembedded_core ∷ source_meta_yocto
    ∷ build_local_conf ∷ build_bblayers_conf ∷ evidence_file ∷ evidence_document ∷ evidence_result
    ∷ evidence_inputs ∷ evidence_subject ∷ []
sequences inspect =
    project_version ∷ repository_git ∷ source_lock ∷ lab_catalog ∷ lab_selection ∷ []
sequences evidence =
    project_version ∷ repository_git ∷ source_lock ∷ lab_catalog ∷ lab_selection ∷ evidence_file
    ∷ evidence_document ∷ evidence_result ∷ evidence_inputs ∷ evidence_subject ∷ []

pub record Check : Type 0 where
  pub id : CheckId
  pub status : Status
  pub required : Bool
  pub summary : String

abbrev historical : String
historical = "Historical PCI evidence does not record lab catalog bindings."

-- `check`, whose KeyError for an id outside CHECKS cannot happen to a `CheckId`
unfoldable pub check : CheckId → Status → Result Raised Check
check i pass =
    ok (record {
      id = i;
      status = pass;
      required = (checks i).required;
      summary = (checks i).passed;
    })
check i fail =
    ok (record {
      id = i;
      status = fail;
      required = (checks i).required;
      summary = (checks i).failed;
    })
check i unavailable = ok (record {
  id = i;
  status = unavailable;
  required = (checks i).required;
  summary = (checks i).unavailable;
})
check i warning =
    if same_id i repository_clean || same_id i evidence_subject
    then ok (record {
      id = i;
      status = warning;
      required = (checks i).required;
      summary = (checks i).failed;
    })
    else if same_id i evidence_inputs
    then ok
        (record { id = i; status = warning; required = (checks i).required; summary = historical })
    else err unsupported_status

-- The result of a command and its exit status.
unfoldable pub aggregate : List Check → Status × ℕ
aggregate cs =
    if any (λ c. is_fail c.status) cs
    then (fail, 1)
    else if any (λ c. c.required && is_unavailable c.status) cs
    then (unavailable, 3)
    else if any (λ c. is_warning c.status || is_unavailable c.status) cs
    then (warning, 0)
    else (pass, 0)
