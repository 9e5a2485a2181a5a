-- ===== src/Diagnostics/Environment.antt =====
-- What the methods of scripts/diagnostics.py call: the file system and Git through
-- scripts/diagnostics_inputs.py and scripts/diagnostics_git.py, and the parsers of the other
-- scripts. Each is an argument of the model, so that every theorem is about all its answers.
use yocto_qemu_edu_lab.Common.{ℕ, String, Bool, Option, List}
use yocto_qemu_edu_lab.Json.{Json}

-- `InputUnavailable` and `InputContractError` of scripts/diagnostics_inputs.py
pub data Input {ℓ} (A : Type ℓ) : Type ℓ where
  got : A → Input A
  input_unavailable input_contract : Input A

-- `ToolUnavailable`, an OSError, and `ToolContractError` of scripts/diagnostics_git.py; `os_error`
-- stands for the other OSErrors and for UnicodeError
pub data Tool {ℓ} (A : Type ℓ) : Type ℓ where
  done : A → Tool A
  tool_unavailable tool_contract os_error : Tool A

abbrev pub Bytes : Type 0
Bytes = List ℕ

-- A validated source lock.
pub record Source : Type 0 where
  pub id : String
  pub url : String
  pub branch_ref : String
  pub release_ref : String
  pub commit : String
  pub object_format : String
  pub path : String
  pub required_paths : List String

pub record Release : Type 0 where
  pub version : String
  pub series : String

pub record Lock : Type 0 where
  pub release : Release
  pub sources : List Source

-- A validated lab manifest: the fields that the commands read.
pub record Manifest : Type 0 where
  pub build_dir : String
  pub machine : String
  -- `targets[0]`
  pub image : String
  pub driver_target : String
  pub layers : List String
  pub preflight_profile : String
  pub system_binary : String
  pub suite : String
  pub evidence_profile : String
  pub evidence_filename : String
  pub guest_contract_version : ℕ
  pub evidence_schema_version : ℕ

pub record Entry : Type 0 where
  pub id : String
  pub manifest : String

pub record Index : Type 0 where
  pub default_lab : String
  pub labs : List Entry

pub record Catalog : Type 0 where
  pub index : Index
  pub index_digest : String
  pub manifests : List (String × Manifest)
  pub manifest_digests : List (String × String)

pub record Task : Type 0 where
  pub id : String
  pub status : String

-- The fields of a validated evidence document that the commands read.
pub record Evidence : Type 0 where
  pub kind : String
  pub schema_version : ℕ
  pub version : String
  pub revision : String
  pub dirty : Bool
  pub lab : Option String
  pub machine : String
  pub image : String
  pub testimage_exit_code : ℕ
  pub result : String
  pub summary : List (String × ℕ)
  pub oeqa_result_sha256 : String
  pub source_lock_sha256 : String
  pub lab_index_sha256 : Option String
  pub lab_manifest_sha256 : Option String

pub record Environment : Type 0 where
  -- scripts/diagnostics_inputs.py, under the repository root
  pub read_regular : String → ℕ → Input Bytes
  pub require_directory : String → Input String
  pub require_entry : String → Input String
  -- Python's codecs and hashlib
  pub decode_utf8 : Bytes → Option String
  pub encode_utf8 : String → Bytes
  pub sha256 : Bytes → String
  -- scripts/diagnostics_git.py
  pub resolve_native : String → Tool String
  pub git_version : String → Tool String
  pub repository_state : String → Tool (String × Bool)
  pub checkout_matches : String → String → Source → Tool Bool
  -- scripts/validate_workflow.py; `none` is a ValueError
  pub parse_toml_bytes : Bytes → Option Json
  pub validate_models : Json → Json → String → List String × Option Task
  -- scripts/source_lock.py and scripts/lab_config.py; `none` is a LockError, a LabError
  pub parse_lock_bytes : Bytes → Option (Lock × String)
  pub parse_index_bytes : Bytes → Option Index
  pub read_catalog_bytes : Bytes → List (String × Bytes) → Lock → Option Catalog
  -- scripts/runtime_evidence.py and scripts/platform_runtime_evidence.py; `none` and `false` are
  -- an EvidenceError
  pub parse_object_bytes : Bytes → Option Json
  -- `document.get("kind")`, where it is a text
  pub document_kind : Json → Option String
  pub validate_evidence : Json → Bool → Bool
  pub validate_platform_evidence : Json → Bool → Bool
  pub evidence_of : Json → Evidence
