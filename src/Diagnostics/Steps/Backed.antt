-- ===== src/Diagnostics/Steps/Backed.antt =====
-- The methods of `Context` in scripts/diagnostics.py keep what a check that has passed has found.
use yocto_qemu_edu_lab.Common.{String, ◌≡◌, refl, ok, arith}
use yocto_qemu_edu_lab.Diagnostics.Checks.{CheckId, Check}
use yocto_qemu_edu_lab.Diagnostics.Environment.{Environment}
use yocto_qemu_edu_lab.Diagnostics.Context.{
  Context, find_checkout, read_build_file, source_checkout, build_file, project_version, repository,
  workflow, source_lock, lab_catalog, read_catalog, selection, read_selection, cleanliness,
  read_dirty, tool_git, tool_ssh, evidence_file, read_evidence, evidence_document_check,
  parse_evidence, evidence_result_check, read_result, evidence_inputs_check, read_inputs,
  evidence_subject_check, read_subject,
}
use yocto_qemu_edu_lab.Diagnostics.Steps.Held.{
  KeepsBacked, IsPlain, with_status, IsBacked-plain, unless_blocked-Backed,
}

module _ (e : Environment) where
  pub project_version-Backed : KeepsBacked (project_version e)
  unfolding project_version
  project_version-Backed c k d h b = ground arith

  pub repository-Backed : KeepsBacked (repository e)
  unfolding repository
  repository-Backed c k d h b = ground arith

  pub workflow-Backed : KeepsBacked (workflow e)
  unfolding workflow
  workflow-Backed c k d h b = ground arith

  pub source_lock-Backed : KeepsBacked (source_lock e)
  unfolding source_lock
  source_lock-Backed c k d h b = ground arith

  pub tool_git-Backed : KeepsBacked (tool_git e)
  unfolding tool_git
  tool_git-Backed c k d h b = ground arith

  pub tool_ssh-Backed : KeepsBacked (tool_ssh e)
  unfolding tool_ssh
  tool_ssh-Backed c k d h b = ground arith

  read_catalog-Backed : KeepsBacked (read_catalog e)
  unfolding read_catalog
  read_catalog-Backed c k d h b = ground arith

  pub lab_catalog-Backed : KeepsBacked (lab_catalog e)
  unfolding lab_catalog
  lab_catalog-Backed = unless_blocked-Backed _ _ _ refl read_catalog-Backed

  read_selection-Backed : KeepsBacked (read_selection e)
  unfolding read_selection
  read_selection-Backed c k d h b = ground arith

  pub selection-Backed : KeepsBacked (selection e)
  unfolding selection
  selection-Backed = unless_blocked-Backed _ _ _ refl read_selection-Backed

  read_dirty-Backed : KeepsBacked (read_dirty e)
  unfolding read_dirty
  read_dirty-Backed c k d h b = ground arith

  pub cleanliness-Backed : KeepsBacked (cleanliness e)
  unfolding cleanliness
  cleanliness-Backed = unless_blocked-Backed _ _ _ refl read_dirty-Backed

  read_evidence-Backed : KeepsBacked (read_evidence e)
  unfolding read_evidence
  read_evidence-Backed c k d h b = ground arith

  pub evidence_file-Backed : KeepsBacked (evidence_file e)
  unfolding evidence_file
  evidence_file-Backed = unless_blocked-Backed _ _ _ refl read_evidence-Backed

  parse_evidence-Backed : KeepsBacked (parse_evidence e)
  unfolding parse_evidence
  parse_evidence-Backed c k d h b = ground arith

  pub evidence_document_check-Backed : KeepsBacked (evidence_document_check e)
  unfolding evidence_document_check
  evidence_document_check-Backed = unless_blocked-Backed _ _ _ refl parse_evidence-Backed

  read_result-Backed : KeepsBacked (read_result e)
  unfolding read_result
  read_result-Backed c k d h b = ground arith

  pub evidence_result_check-Backed : KeepsBacked (evidence_result_check e)
  unfolding evidence_result_check
  evidence_result_check-Backed = unless_blocked-Backed _ _ _ refl read_result-Backed

  read_inputs-Backed : KeepsBacked (read_inputs e)
  unfolding read_inputs
  read_inputs-Backed c k d h b = ground arith

  pub evidence_inputs_check-Backed : KeepsBacked (evidence_inputs_check e)
  unfolding evidence_inputs_check
  evidence_inputs_check-Backed = unless_blocked-Backed _ _ _ refl read_inputs-Backed

  read_subject-Backed : KeepsBacked (read_subject e)
  unfolding read_subject
  read_subject-Backed c k d h b = ground arith

  pub evidence_subject_check-Backed : KeepsBacked (evidence_subject_check e)
  unfolding evidence_subject_check
  evidence_subject_check-Backed = unless_blocked-Backed _ _ _ refl read_subject-Backed

  pub find_checkout-status :
      (name : String) (i : CheckId) (c : Context) (k : Check) (d : Context)
      → find_checkout e name i c ≡ ok (k, d)
      → d ≡ with_status i k.status c
  unfolding find_checkout
  find_checkout-status name i c k d h = ground arith

  pub source_checkout-Backed :
      (name : String) (i : CheckId) → IsPlain i → KeepsBacked (source_checkout e name i)
  unfolding source_checkout
  source_checkout-Backed name i p =
      unless_blocked-Backed _ _ _ p.not_git
        (λ c k d h b. rw (find_checkout-status name i c k d h) (IsBacked-plain i k.status c p b))

  pub read_build_file-status :
      (name : String) (i : CheckId) (c : Context) (k : Check) (d : Context)
      → read_build_file e name i c ≡ ok (k, d)
      → d ≡ with_status i k.status c
  unfolding read_build_file
  read_build_file-status name i c k d h = ground arith

  pub build_file-Backed :
      (name : String) (i : CheckId) → IsPlain i → KeepsBacked (build_file e name i)
  unfolding build_file
  build_file-Backed name i p =
      unless_blocked-Backed _ _ _ p.not_git
        (λ c k d h b. rw (read_build_file-status name i c k d h) (IsBacked-plain i k.status c p b))
