-- ===== src/Diagnostics/Commands.antt =====
-- scripts/diagnostics.py: `base`, `evidence_checks` and the checks of `command_document`.
use yocto_qemu_edu_lab.Common.{
  String, Option, List, [], ◌∷◌, ◌++◌, Result, ok, err, ◌>>=◌, map, Bool, true, false, ◌&&◌,
  if◌then◌else◌,
}
use yocto_qemu_edu_lab.Diagnostics.Checks.{
  CheckId, same_id, Check, Command, status, doctor, inspect, evidence, sequences, Raised,
  wrong_order,
}
use yocto_qemu_edu_lab.Diagnostics.Environment.{Environment}
use yocto_qemu_edu_lab.Diagnostics.Context.{
  Context, Step, init, project_version, repository, workflow, source_lock, lab_catalog, selection,
  cleanliness, tool_git, tool_ssh, source_checkout, build_file, evidence_file,
  evidence_document_check, evidence_result_check, evidence_inputs_check, evidence_subject_check,
}

-- The methods in the order in which a command calls them.
unfoldable pub run_all : List Step → Context → Result Raised (List Check × Context)
run_all [] c = ok ([], c)
run_all (m ∷ ms) c = m c >>= λ r. run_all ms r.1 >>= λ rest. ok (r.0 ∷ rest.0, rest.1)

abbrev workflow_step : Environment → Command → List Step
workflow_step e status = workflow e ∷ []
workflow_step e doctor = workflow e ∷ []
workflow_step e inspect = []
workflow_step e evidence = []

abbrev pub base : Environment → Command → List Step
base e command =
    project_version e ∷ repository e ∷ workflow_step e command
    ++ source_lock e ∷ lab_catalog e ∷ selection e ∷ []

abbrev pub evidence_checks : Environment → List Step
evidence_checks e =
    evidence_file e
    ∷ evidence_document_check e
    ∷ evidence_result_check e
    ∷ evidence_inputs_check e
    ∷ evidence_subject_check e
    ∷ []

abbrev pub extra : Environment → Command → List Step
extra e status = cleanliness e ∷ []
extra e doctor =
    (tool_git e
      ∷ tool_ssh e
      ∷ source_checkout e "bitbake" CheckId.source_bitbake
      ∷ source_checkout e "openembedded-core" CheckId.source_openembedded_core
      ∷ source_checkout e "meta-yocto" CheckId.source_meta_yocto
      ∷ build_file e "local.conf" CheckId.build_local_conf
      ∷ build_file e "bblayers.conf" CheckId.build_bblayers_conf
      ∷ [])
    ++ evidence_checks e
extra e inspect = []
extra e evidence = evidence_checks e

abbrev pub steps : Environment → Command → List Step
steps e command = base e command ++ extra e command

abbrev pub same_ids : List CheckId → List CheckId → Bool
same_ids [] [] = true
same_ids (i ∷ is) (j ∷ js) = same_id i j && same_ids is js
same_ids _ _ = false

-- The checks of a command, with the context that they leave.
unfoldable pub command_checks :
    Environment → Command → Option String → Result Raised (List Check × Context)
unfolding run_all
command_checks e command lab_id = init lab_id >>= λ c. run_all (steps e command) c >>= λ r.
    if same_ids (map (λ k. k.id) r.0) (sequences command) then ok r else err wrong_order
