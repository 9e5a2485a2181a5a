-- ===== src/Diagnostics/Steps/Owed.antt =====
-- The methods of `Context` in scripts/diagnostics.py and their entries of the tables of
-- `validate_state_transitions`.
use yocto_qemu_edu_lab.Common.{◌≡◌, true, List, [], ◌∷◌, arith, ok}
use yocto_qemu_edu_lab.Diagnostics.Checks.{CheckId, Check}
use yocto_qemu_edu_lab.Diagnostics.Environment.{Environment}
use yocto_qemu_edu_lab.Diagnostics.Context.{
  Context, is_open, lab_catalog, read_catalog, selection, read_selection, cleanliness, read_dirty,
  evidence_file, read_evidence, evidence_document_check, parse_evidence, evidence_result_check,
  read_result, evidence_inputs_check, read_inputs, evidence_subject_check, read_subject,
}
use yocto_qemu_edu_lab.Diagnostics.Transitions.{
  upstreams, derived_upstreams, allowed, dependency_ok, derived_ok,
}
use yocto_qemu_edu_lab.Diagnostics.Steps.Held.{IsBacked, backed}
use yocto_qemu_edu_lab.Diagnostics.Steps.Derived.{
  guarded_dependency, guarded_run, blocked-of-passed, derived-split, read_selection-derived,
  read_dirty-derived, parse_evidence-derived, read_result-derived, read_inputs-derived,
  read_subject-derived,
}

module _ (e : Environment) (c : Context) (k : Check) (d : Context) where
  pub lab_catalog-dependency :
      lab_catalog e c ≡ ok (k, d)
      → dependency_ok c.statuses (upstreams CheckId.lab_catalog) k.status ≡ true
  unfolding lab_catalog
  lab_catalog-dependency =
      guarded_dependency (upstreams CheckId.lab_catalog) CheckId.lab_catalog (read_catalog e) c k d

  pub selection-dependency :
      selection e c ≡ ok (k, d)
      → dependency_ok c.statuses (upstreams CheckId.lab_selection) k.status ≡ true
  unfolding selection
  selection-dependency =
      guarded_dependency (upstreams CheckId.lab_selection) CheckId.lab_selection (read_selection e)
        c k d

  pub cleanliness-dependency :
      cleanliness e c ≡ ok (k, d)
      → dependency_ok c.statuses (upstreams CheckId.repository_clean) k.status ≡ true
  unfolding cleanliness
  cleanliness-dependency =
      guarded_dependency (upstreams CheckId.repository_clean) CheckId.repository_clean
        (read_dirty e) c k d

  pub evidence_file-dependency :
      evidence_file e c ≡ ok (k, d)
      → dependency_ok c.statuses (upstreams CheckId.evidence_file) k.status ≡ true
  unfolding evidence_file
  evidence_file-dependency =
      guarded_dependency (upstreams CheckId.evidence_file) CheckId.evidence_file (read_evidence e) c
        k d

  pub evidence_document_check-dependency :
      evidence_document_check e c ≡ ok (k, d)
      → dependency_ok c.statuses (upstreams CheckId.evidence_document) k.status ≡ true
  unfolding evidence_document_check
  evidence_document_check-dependency =
      guarded_dependency (upstreams CheckId.evidence_document) CheckId.evidence_document
        (parse_evidence e) c k d

  pub evidence_result_check-dependency :
      evidence_result_check e c ≡ ok (k, d)
      → dependency_ok c.statuses (upstreams CheckId.evidence_result) k.status ≡ true
  unfolding evidence_result_check
  evidence_result_check-dependency =
      guarded_dependency (upstreams CheckId.evidence_result) CheckId.evidence_result (read_result e)
        c k d

  pub evidence_inputs_check-dependency :
      evidence_inputs_check e c ≡ ok (k, d)
      → dependency_ok c.statuses (upstreams CheckId.evidence_inputs) k.status ≡ true
  unfolding evidence_inputs_check
  evidence_inputs_check-dependency =
      guarded_dependency (upstreams CheckId.evidence_inputs) CheckId.evidence_inputs (read_inputs e)
        c k d

  pub evidence_subject_check-dependency :
      evidence_subject_check e c ≡ ok (k, d)
      → dependency_ok c.statuses (upstreams CheckId.evidence_subject) k.status ≡ true
  unfolding evidence_subject_check
  evidence_subject_check-dependency =
      guarded_dependency (upstreams CheckId.evidence_subject) CheckId.evidence_subject
        (read_subject e) c k d

module _ (e : Environment) (c : Context) (k : Check) (d : Context) (b : IsBacked c) where
  pub selection-derived :
      selection e c ≡ ok (k, d)
      → derived_ok c.statuses
          (derived_upstreams CheckId.lab_selection)
          (allowed CheckId.lab_selection)
          k.status
        ≡ true
  unfolding selection
  selection-derived h =
      let us : List CheckId = upstreams CheckId.lab_selection in
      derived-split c.statuses us (allowed CheckId.lab_selection) k.status (λ passed.
        read_selection-derived e c k d b (ground arith) (
          guarded_run us CheckId.lab_selection (read_selection e) c k d
            (blocked-of-passed c.statuses us passed) h))

  pub cleanliness-derived :
      cleanliness e c ≡ ok (k, d)
      → derived_ok c.statuses
          (derived_upstreams CheckId.repository_clean)
          (allowed CheckId.repository_clean)
          k.status
        ≡ true
  unfolding cleanliness
  cleanliness-derived h =
      let us : List CheckId = upstreams CheckId.repository_clean in
      derived-split c.statuses us (allowed CheckId.repository_clean) k.status (λ passed.
        read_dirty-derived e c k d b (ground arith) (
          guarded_run us CheckId.repository_clean (read_dirty e) c k d
            (blocked-of-passed c.statuses us passed) h))

  pub evidence_result_check-derived :
      evidence_result_check e c ≡ ok (k, d)
      → derived_ok c.statuses
          (derived_upstreams CheckId.evidence_result)
          (allowed CheckId.evidence_result)
          k.status
        ≡ true
  unfolding evidence_result_check
  evidence_result_check-derived h =
      let us : List CheckId = upstreams CheckId.evidence_result in
      derived-split c.statuses us (allowed CheckId.evidence_result) k.status (λ passed.
        read_result-derived e c k d b (ground arith) (
          guarded_run us CheckId.evidence_result (read_result e) c k d
            (blocked-of-passed c.statuses us passed) h))

  pub evidence_inputs_check-derived :
      evidence_inputs_check e c ≡ ok (k, d)
      → derived_ok c.statuses
          (derived_upstreams CheckId.evidence_inputs)
          (allowed CheckId.evidence_inputs)
          k.status
        ≡ true
  unfolding evidence_inputs_check
  evidence_inputs_check-derived h =
      let us : List CheckId = upstreams CheckId.evidence_inputs in
      derived-split c.statuses us (allowed CheckId.evidence_inputs) k.status (λ passed.
        read_inputs-derived e c k d b (ground arith) (ground arith) (
          guarded_run us CheckId.evidence_inputs (read_inputs e) c k d
            (blocked-of-passed c.statuses us passed) h))

  pub evidence_subject_check-derived :
      evidence_subject_check e c ≡ ok (k, d)
      → derived_ok c.statuses
          (derived_upstreams CheckId.evidence_subject)
          (allowed CheckId.evidence_subject)
          k.status
        ≡ true
  unfolding evidence_subject_check
  evidence_subject_check-derived h =
      let us : List CheckId = upstreams CheckId.evidence_subject in
      derived-split c.statuses us (allowed CheckId.evidence_subject) k.status (λ passed.
        read_subject-derived e c k d b (ground arith) (ground arith) (
          guarded_run us CheckId.evidence_subject (read_subject e) c k d
            (blocked-of-passed c.statuses us passed) h))

  pub evidence_document_check-derived :
      backed (c.statuses CheckId.evidence_file) (is_open (c.statuses CheckId.lab_selection)) ≡ true
      → evidence_document_check e c ≡ ok (k, d)
      → derived_ok c.statuses
          (derived_upstreams CheckId.evidence_document)
          (allowed CheckId.evidence_document)
          k.status
        ≡ true
  unfolding evidence_document_check
  evidence_document_check-derived file h =
      derived-split c.statuses (CheckId.evidence_file ∷ []) (allowed CheckId.evidence_document)
        k.status
        (λ passed. parse_evidence-derived e c k d b (ground arith) (
          guarded_run (upstreams CheckId.evidence_document) CheckId.evidence_document
            (parse_evidence e) c k d (ground arith) h))
