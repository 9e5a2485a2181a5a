-- ===== src/Diagnostics/Context/Evidence.antt =====
-- scripts/diagnostics.py: the methods of `Context` about the selected evidence document.
use yocto_qemu_edu_lab.Common.{
  ℕ, String, str_eq, Bool, true, false, ◌&&◌, Option, none, some, [], ◌∷◌, ◌==◌, leb, if◌then◌else◌,
}
use yocto_qemu_edu_lab.Regex.{fullmatch}
use yocto_qemu_edu_lab.Json.{Json}
use yocto_qemu_edu_lab.Diagnostics.Checks.{CheckId, Status, pass, warning, fail, unavailable}
use yocto_qemu_edu_lab.Diagnostics.Patterns.{valid_project_version, token_pattern}
use yocto_qemu_edu_lab.Diagnostics.Environment.{
  Environment, got, input_unavailable, input_contract, Bytes, Manifest, Evidence,
}
use yocto_qemu_edu_lab.Diagnostics.Context.State.{
  Binding, not_recorded, bound, evidence_projection, Context, Step, record_check, unless_blocked,
}
use yocto_qemu_edu_lab.Diagnostics.Context.Inputs.{◌▸◌}

abbrev max_evidence_bytes : ℕ
max_evidence_bytes = 1048576

abbrev pub runtime_kind : String
runtime_kind = "qemu-edu-runtime"

abbrev pub platform_kind : String
platform_kind = "qemu-edu-platform-runtime"

-- `s == o` for a text and a value that may be None
abbrev pub equals : String → Option String → Bool
equals s none = false
equals s (some t) = str_eq s t

-- `o == p` for two values that may be None
abbrev pub equals_option : Option String → Option String → Bool
equals_option none none = true
equals_option (some s) (some t) = str_eq s t
equals_option _ _ = false

module _ (e : Environment) where
  unfoldable pub read_evidence : Step
  unfolding record_check
  read_evidence c = elim c.manifest [
    | none ↦ record_check CheckId.evidence_file unavailable c
    | some manifest ↦
        elim (e.read_regular (manifest.build_dir ▸ "/" ▸ manifest.evidence_filename)
          max_evidence_bytes) [
            | input_unavailable ↦ record_check CheckId.evidence_file unavailable c
            | input_contract ↦ record_check CheckId.evidence_file fail c
            | got raw ↦
                record_check CheckId.evidence_file pass
                  (record c { evidence_raw = some raw; evidence_digest = some (e.sha256 raw) })
          ]
  ]

  unfoldable pub evidence_file : Step
  unfolding read_evidence
  evidence_file = unless_blocked (CheckId.lab_selection ∷ []) CheckId.evidence_file read_evidence

  -- the binding of a document that its own validator accepts
  unfoldable pub binding_of : Json → Option Binding
  binding_of document =
      if equals runtime_kind (e.document_kind document)
      then (if e.validate_evidence document false
            && leb 1 (e.evidence_of document).schema_version
            && leb (e.evidence_of document).schema_version 3
          then some not_recorded
          else none)
      else if equals platform_kind (e.document_kind document)
      then (if e.validate_platform_evidence document false then some bound else none)
      else none

  -- the version, the machine and the image must be safe to print
  unfoldable pub safe_fields : Evidence → Bool
  safe_fields evidence =
      valid_project_version evidence.version
      && fullmatch token_pattern evidence.machine
      && fullmatch token_pattern evidence.image

  -- the summary is kept only for the selected lab and version
  unfoldable pub describes_selection : Evidence → Context → Bool
  describes_selection evidence c = equals evidence.version c.version && elim c.manifest [
    | none ↦ false
    | some manifest ↦
        str_eq evidence.machine manifest.machine && str_eq evidence.image manifest.image
  ]

  accept_document : Json → Binding → Step
  accept_document document binding c =
      let evidence = e.evidence_of document in
      let kept = record c { evidence_document = some document; lab_binding = some binding } in
      if describes_selection evidence c
      then record_check CheckId.evidence_document pass
          (record kept { evidence_summary = some (evidence_projection evidence c.evidence_digest) })
      else record_check CheckId.evidence_document pass kept

  read_document : Bytes → Step
  unfolding accept_document
  read_document raw c = elim (e.parse_object_bytes raw) [
    | none ↦ record_check CheckId.evidence_document fail c
    | some document ↦ elim (binding_of document) [
      | none ↦ record_check CheckId.evidence_document fail c
      | some binding ↦
          if safe_fields (e.evidence_of document)
          then accept_document document binding c
          else record_check CheckId.evidence_document fail c
    ]
  ]

  unfoldable pub parse_evidence : Step
  unfolding read_document record_check evidence_projection
  parse_evidence c = elim c.evidence_raw [
    | none ↦ record_check CheckId.evidence_document unavailable c
    | some raw ↦ read_document raw c
  ]

  unfoldable pub evidence_document_check : Step
  unfolding parse_evidence
  evidence_document_check =
      unless_blocked (CheckId.evidence_file ∷ CheckId.lab_selection ∷ []) CheckId.evidence_document
        parse_evidence

  -- the validator of the document's kind, which must also find a passing suite
  unfoldable pub passes : Json → Bool
  passes document =
      if equals runtime_kind (e.document_kind document)
      then e.validate_evidence document true
      else e.validate_platform_evidence document true

  unfoldable pub read_result : Step
  unfolding record_check
  read_result c = elim c.evidence_document [
    | none ↦ record_check CheckId.evidence_result unavailable c
    | some document ↦
        record_check CheckId.evidence_result (if passes document then pass else fail) c
  ]

  unfoldable pub evidence_result_check : Step
  unfolding read_result
  evidence_result_check =
      unless_blocked (CheckId.evidence_document ∷ []) CheckId.evidence_result read_result

  unfoldable pub inputs_match : Evidence → Manifest → Context → Bool
  inputs_match evidence manifest c =
      equals evidence.source_lock_sha256 c.lock_digest
      && equals evidence.version c.version
      && str_eq evidence.machine manifest.machine
      && str_eq evidence.image manifest.image
      && evidence.schema_version == manifest.evidence_schema_version

  unfoldable pub bound_match : Evidence → Context → Bool
  bound_match evidence c =
      str_eq evidence.kind platform_kind
      && equals_option evidence.lab c.lab_id
      && equals_option evidence.lab_index_sha256 c.index_digest
      && equals_option evidence.lab_manifest_sha256 c.manifest_digest

  is_bound : Option Binding → Bool
  is_bound (some bound) = true
  is_bound _ = false

  unfoldable pub inputs_status : Evidence → Manifest → Context → Status
  unfolding inputs_match bound_match is_bound
  inputs_status evidence manifest c =
      let matches = inputs_match evidence manifest c in
      if is_bound c.lab_binding
      then (if matches && bound_match evidence c then pass else fail)
      else if matches && str_eq evidence.kind runtime_kind
      then warning
      else fail

  unfoldable pub read_inputs : Step
  unfolding record_check
  read_inputs c = elim c.evidence_document [
    | none ↦ record_check CheckId.evidence_inputs unavailable c
    | some document ↦ elim c.manifest [
      | none ↦ record_check CheckId.evidence_inputs unavailable c
      | some manifest ↦
          record_check CheckId.evidence_inputs (inputs_status (e.evidence_of document) manifest c) c
    ]
  ]

  unfoldable pub evidence_inputs_check : Step
  unfolding read_inputs
  evidence_inputs_check =
      unless_blocked
        (CheckId.project_version ∷ CheckId.evidence_document ∷ CheckId.source_lock
          ∷ CheckId.lab_selection ∷ [])
        CheckId.evidence_inputs read_inputs

  unfoldable pub read_subject : Step
  unfolding record_check
  read_subject c = elim c.evidence_document [
    | none ↦ record_check CheckId.evidence_subject unavailable c
    | some document ↦ elim c.revision [
      | none ↦ record_check CheckId.evidence_subject unavailable c
      | some revision ↦
          let same = str_eq (e.evidence_of document).revision revision in
          record_check CheckId.evidence_subject (if same then pass else warning)
            (record c { subject_matches = some same })
    ]
  ]

  unfoldable pub evidence_subject_check : Step
  unfolding read_subject
  evidence_subject_check =
      unless_blocked
        (CheckId.evidence_document ∷ CheckId.evidence_result ∷ CheckId.repository_git ∷ [])
        CheckId.evidence_subject read_subject
