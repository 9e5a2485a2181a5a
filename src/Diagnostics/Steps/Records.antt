-- ===== src/Diagnostics/Steps/Records.antt =====
-- The check that each method of `Context` records.
use yocto_qemu_edu_lab.Common.{String, ◌≡◌, List, ok, arith}
use yocto_qemu_edu_lab.Diagnostics.Checks.{CheckId, Check, check}
use yocto_qemu_edu_lab.Diagnostics.Environment.{Environment}
use yocto_qemu_edu_lab.Diagnostics.Context.{
  Context, Step, set_status, unless_blocked, project_version, repository, workflow, source_lock,
  lab_catalog, read_catalog, selection, read_selection, cleanliness, read_dirty, tool_git, tool_ssh,
  source_checkout, find_checkout, build_file, read_build_file, evidence_file, read_evidence,
  evidence_document_check, parse_evidence, evidence_result_check, read_result,
  evidence_inputs_check, read_inputs, evidence_subject_check, read_subject,
}

pub record Records (i : CheckId) (c : Context) (k : Check) (d : Context) : Type 0 where
  pub id : k.id ≡ i
  pub made : check i k.status ≡ ok k
  pub statuses : d.statuses ≡ set_status c.statuses i k.status

abbrev pub AlwaysRecords : CheckId → Step → Type 0
AlwaysRecords i m = (c : Context) (k : Check) (d : Context) → m c ≡ ok (k, d) → Records i c k d

unless_blocked-Records :
    (ids : List CheckId) (i : CheckId) (m : Step)
    → AlwaysRecords i m
    → AlwaysRecords i (unless_blocked ids i m)
unfolding unless_blocked
unless_blocked-Records ids i m f c k d h = ground (arith, f c k d)

module _ (e : Environment) where
  pub project_version-Records : AlwaysRecords CheckId.project_version (project_version e)
  unfolding project_version
  project_version-Records c k d h = ground arith

  pub repository-Records : AlwaysRecords CheckId.repository_git (repository e)
  unfolding repository
  repository-Records c k d h = ground arith

  pub workflow-Records : AlwaysRecords CheckId.workflow_task (workflow e)
  unfolding workflow
  workflow-Records c k d h = ground arith

  pub source_lock-Records : AlwaysRecords CheckId.source_lock (source_lock e)
  unfolding source_lock
  source_lock-Records c k d h = ground arith

  pub tool_git-Records : AlwaysRecords CheckId.tool_git (tool_git e)
  unfolding tool_git
  tool_git-Records c k d h = ground arith

  pub tool_ssh-Records : AlwaysRecords CheckId.tool_ssh (tool_ssh e)
  unfolding tool_ssh
  tool_ssh-Records c k d h = ground arith

  read_catalog-Records : AlwaysRecords CheckId.lab_catalog (read_catalog e)
  unfolding read_catalog
  read_catalog-Records c k d h = ground arith

  pub lab_catalog-Records : AlwaysRecords CheckId.lab_catalog (lab_catalog e)
  unfolding lab_catalog
  lab_catalog-Records = unless_blocked-Records _ _ _ read_catalog-Records

  read_selection-Records : AlwaysRecords CheckId.lab_selection (read_selection e)
  unfolding read_selection
  read_selection-Records c k d h = ground arith

  pub selection-Records : AlwaysRecords CheckId.lab_selection (selection e)
  unfolding selection
  selection-Records = unless_blocked-Records _ _ _ read_selection-Records

  read_dirty-Records : AlwaysRecords CheckId.repository_clean (read_dirty e)
  unfolding read_dirty
  read_dirty-Records c k d h = ground arith

  pub cleanliness-Records : AlwaysRecords CheckId.repository_clean (cleanliness e)
  unfolding cleanliness
  cleanliness-Records = unless_blocked-Records _ _ _ read_dirty-Records

  read_evidence-Records : AlwaysRecords CheckId.evidence_file (read_evidence e)
  unfolding read_evidence
  read_evidence-Records c k d h = ground arith

  pub evidence_file-Records : AlwaysRecords CheckId.evidence_file (evidence_file e)
  unfolding evidence_file
  evidence_file-Records = unless_blocked-Records _ _ _ read_evidence-Records

  parse_evidence-Records : AlwaysRecords CheckId.evidence_document (parse_evidence e)
  unfolding parse_evidence
  parse_evidence-Records c k d h = ground arith

  pub evidence_document_check-Records :
      AlwaysRecords CheckId.evidence_document (evidence_document_check e)
  unfolding evidence_document_check
  evidence_document_check-Records = unless_blocked-Records _ _ _ parse_evidence-Records

  read_result-Records : AlwaysRecords CheckId.evidence_result (read_result e)
  unfolding read_result
  read_result-Records c k d h = ground arith

  pub evidence_result_check-Records :
      AlwaysRecords CheckId.evidence_result (evidence_result_check e)
  unfolding evidence_result_check
  evidence_result_check-Records = unless_blocked-Records _ _ _ read_result-Records

  read_inputs-Records : AlwaysRecords CheckId.evidence_inputs (read_inputs e)
  unfolding read_inputs
  read_inputs-Records c k d h = ground arith

  pub evidence_inputs_check-Records :
      AlwaysRecords CheckId.evidence_inputs (evidence_inputs_check e)
  unfolding evidence_inputs_check
  evidence_inputs_check-Records = unless_blocked-Records _ _ _ read_inputs-Records

  read_subject-Records : AlwaysRecords CheckId.evidence_subject (read_subject e)
  unfolding read_subject
  read_subject-Records c k d h = ground arith

  pub evidence_subject_check-Records :
      AlwaysRecords CheckId.evidence_subject (evidence_subject_check e)
  unfolding evidence_subject_check
  evidence_subject_check-Records = unless_blocked-Records _ _ _ read_subject-Records

  find_checkout-Records : (name : String) (i : CheckId) → AlwaysRecords i (find_checkout e name i)
  unfolding find_checkout
  find_checkout-Records name i c k d h = ground arith

  pub source_checkout-Records :
      (name : String) (i : CheckId) → AlwaysRecords i (source_checkout e name i)
  unfolding source_checkout
  source_checkout-Records name i = unless_blocked-Records _ _ _ (find_checkout-Records name i)

  read_build_file-Records :
      (name : String) (i : CheckId) → AlwaysRecords i (read_build_file e name i)
  unfolding read_build_file
  read_build_file-Records name i c k d h = ground arith

  pub build_file-Records : (name : String) (i : CheckId) → AlwaysRecords i (build_file e name i)
  unfolding build_file
  build_file-Records name i = unless_blocked-Records _ _ _ (read_build_file-Records name i)
