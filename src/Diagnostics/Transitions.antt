-- ===== src/Diagnostics/Transitions.antt =====
-- scripts/diagnostics.py: `validate_state_transitions`, the closed relation between the statuses of
-- the checks of one document. An absent key of `statuses` is `none`.
use yocto_qemu_edu_lab.Common.{
  Bool, true, false, ◌&&◌, not, Option, none, some, List, [], ◌∷◌, if◌then◌else◌, all, any,
  if◌then◌else◌,
}
use yocto_qemu_edu_lab.Diagnostics.Checks.{
  CheckId, project_version, repository_git, workflow_task, tool_ssh, source_lock, lab_catalog,
  lab_selection, repository_clean, tool_git, source_bitbake, source_openembedded_core,
  source_meta_yocto, build_local_conf, build_bblayers_conf, evidence_file, evidence_document,
  evidence_result, evidence_inputs, evidence_subject, Status, pass, warning, fail, unavailable,
  is_pass, is_unavailable, Check,
}
use yocto_qemu_edu_lab.Diagnostics.Context.{Statuses, set_status, is_open}

abbrev pub is_present : Option Status → Bool
is_present none = false
is_present (some s) = true

-- present, and neither `pass` nor `warning`
abbrev pub is_bad : Option Status → Bool
is_bad none = false
is_bad (some s) = not (is_open (some s))

abbrev pub is_passed : Option Status → Bool
is_passed none = false
is_passed (some s) = is_pass s

-- The table `dependencies`: the upstream checks of each key, and none for the other checks.
abbrev pub upstreams : CheckId → List CheckId
upstreams lab_catalog = source_lock ∷ []
upstreams lab_selection = lab_catalog ∷ []
upstreams repository_clean = repository_git ∷ []
upstreams source_bitbake = tool_git ∷ source_lock ∷ []
upstreams source_openembedded_core = tool_git ∷ source_lock ∷ []
upstreams source_meta_yocto = tool_git ∷ source_lock ∷ []
upstreams build_local_conf = lab_selection ∷ []
upstreams build_bblayers_conf = lab_selection ∷ []
upstreams evidence_file = lab_selection ∷ []
upstreams evidence_document = evidence_file ∷ lab_selection ∷ []
upstreams evidence_result = evidence_document ∷ []
upstreams evidence_inputs = project_version ∷ evidence_document ∷ source_lock ∷ lab_selection ∷ []
upstreams evidence_subject = evidence_document ∷ evidence_result ∷ repository_git ∷ []
upstreams _ = []

-- The table `derived_states`: the upstream checks, and the statuses that they allow.
abbrev pub derived_upstreams : CheckId → List CheckId
derived_upstreams lab_selection = lab_catalog ∷ []
derived_upstreams repository_clean = repository_git ∷ []
derived_upstreams evidence_document = evidence_file ∷ []
derived_upstreams evidence_result = evidence_document ∷ []
derived_upstreams evidence_inputs =
    project_version ∷ evidence_document ∷ source_lock ∷ lab_selection ∷ []
derived_upstreams evidence_subject = evidence_document ∷ evidence_result ∷ repository_git ∷ []
derived_upstreams _ = []

abbrev pub pass_fail : Status → Bool
pass_fail pass = true
pass_fail fail = true
pass_fail _ = false

abbrev pub pass_warning : Status → Bool
pass_warning pass = true
pass_warning warning = true
pass_warning _ = false

abbrev pub pass_warning_fail : Status → Bool
pass_warning_fail unavailable = false
pass_warning_fail _ = true

abbrev pub allowed : CheckId → Status → Bool
allowed lab_selection = pass_fail
allowed repository_clean = pass_warning
allowed evidence_document = pass_fail
allowed evidence_result = pass_fail
allowed evidence_inputs = pass_warning_fail
allowed evidence_subject = pass_warning
allowed _ = λ s. true

-- a failed upstream check leaves the downstream check unavailable
abbrev pub dependency_ok : Statuses → List CheckId → Status → Bool
dependency_ok m us s = if any (λ u. is_bad (m u)) us then is_unavailable s else true

-- when all upstream checks are there and passed, the downstream status is an allowed one
abbrev pub derived_ok : Statuses → List CheckId → (Status → Bool) → Status → Bool
derived_ok m us allow s = if all (λ u. is_passed (m u)) us then allow s else true

abbrev pub if_present : (Status → Bool) → Option Status → Bool
if_present test none = true
if_present test (some s) = test s

abbrev pub dependency_holds : Statuses → CheckId → Bool
dependency_holds m i = if_present (dependency_ok m (upstreams i)) (m i)

abbrev pub derived_holds : Statuses → CheckId → Bool
derived_holds m i = if_present (derived_ok m (derived_upstreams i) (allowed i)) (m i)

-- `tool_states[repository]`; a warning of `repository.git` has no entry, and raises
abbrev pub tool_states : Status → Status → Bool
tool_states pass tool = is_pass tool
tool_states fail tool = pass_fail tool
tool_states unavailable tool = is_unavailable tool
tool_states warning tool = false

abbrev pub git_holds : Option Status → Option Status → Bool
git_holds (some repository) (some tool) = tool_states repository tool
git_holds _ _ = true

abbrev pub all_ids : List CheckId
all_ids =
    project_version ∷ repository_git ∷ workflow_task ∷ source_lock ∷ lab_catalog ∷ lab_selection
    ∷ repository_clean ∷ tool_git ∷ tool_ssh ∷ source_bitbake ∷ source_openembedded_core
    ∷ source_meta_yocto ∷ build_local_conf ∷ build_bblayers_conf ∷ evidence_file ∷ evidence_document
    ∷ evidence_result ∷ evidence_inputs ∷ evidence_subject ∷ []

-- `false` stands for the ValueError.
unfoldable pub validate_state_transitions : Statuses → Bool
validate_state_transitions m =
    all (dependency_holds m) all_ids
    && all (derived_holds m) all_ids
    && git_holds (m repository_git) (m tool_git)

-- `{item.id: item.status for item in checked}`
abbrev pub statuses_from : Statuses → List Check → Statuses
statuses_from m [] = m
statuses_from m (c ∷ cs) = statuses_from (set_status m c.id c.status) cs

abbrev pub statuses_of : List Check → Statuses
statuses_of = statuses_from (λ i. none)
