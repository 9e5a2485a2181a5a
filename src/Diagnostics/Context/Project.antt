-- ===== src/Diagnostics/Context/Project.antt =====
-- scripts/diagnostics.py: the methods of `Context` about the version, Git, the maintenance task and
-- the tools.
use Prim.Native.String
use yocto_qemu_edu_lab.Common.{
  ℕ, String, strip, Bool, true, false, ◌||◌, not, Option, none, some, List, [], ◌∷◌, same_bytes,
  if◌then◌else◌, Result, ok, err, ◌>>=◌,
}
use yocto_qemu_edu_lab.Diagnostics.Checks.{
  CheckId, Status, pass, warning, fail, unavailable, Raised, propagated,
}
use yocto_qemu_edu_lab.Diagnostics.Patterns.{valid_project_version}
use yocto_qemu_edu_lab.Diagnostics.Environment.{
  Environment, got, input_unavailable, input_contract, Tool, done, tool_unavailable, tool_contract,
  os_error, Bytes,
}
use yocto_qemu_edu_lab.Diagnostics.Context.State.{Context, Step, record_check, unless_blocked}

abbrev max_version_bytes : ℕ
max_version_bytes = 128

abbrev max_workflow_bytes : ℕ
max_workflow_bytes = 262144

abbrev is_empty : List String → Bool
is_empty [] = true
is_empty (x ∷ xs) = false

-- `resolve_native("git")`, and `git_version` of what it finds
abbrev locate_git : Environment → Tool String
locate_git e = elim (e.resolve_native "git") [
  | done executable ↦ elim (e.git_version executable) [
    | done version ↦ done executable
    | tool_unavailable ↦ tool_unavailable
    | tool_contract ↦ tool_contract
    | os_error ↦ os_error
  ]
  | tool_unavailable ↦ tool_unavailable
  | tool_contract ↦ tool_contract
  | os_error ↦ os_error
]

module _ (e : Environment) where
  -- the file must be the text, without spaces around it, and one newline
  read_version : Bytes → Step
  read_version raw c = elim (e.decode_utf8 raw) [
    | none ↦ record_check CheckId.project_version fail c
    | some text ↦
        let value = strip text in
        if not (same_bytes raw (e.encode_utf8 (String.◌++◌ value "\n")))
          || not (valid_project_version value)
        then record_check CheckId.project_version fail c
        else record_check CheckId.project_version pass (record c { version = some value })
  ]

  unfoldable pub project_version : Step
  unfolding read_version record_check
  project_version c = elim (e.read_regular "VERSION" max_version_bytes) [
    | input_unavailable ↦ record_check CheckId.project_version unavailable c
    | input_contract ↦ record_check CheckId.project_version fail c
    | got raw ↦ read_version raw c
  ]

  -- `_git`, whose answer is kept after the first call
  unfoldable pub git : Context → Result Raised ((Option String × Status) × Context)
  git c = elim c.git_state [
    | some state ↦ ok ((c.git_executable, state), c)
    | none ↦ elim (locate_git e) [
      | tool_unavailable ↦ ok ((none, unavailable), record c { git_state = some unavailable })
      | tool_contract ↦ ok ((none, fail), record c { git_state = some fail })
      | os_error ↦ err propagated
      | done executable ↦ ok (
        (some executable, pass),
        record c { git_executable = some executable; git_state = some pass },
      )
    ]
  ]

  read_repository : Option String → Status → Step
  read_repository none state c = record_check CheckId.repository_git state c
  read_repository (some executable) state c = elim (e.repository_state executable) [
    | done (revision, dirty) ↦
        record_check CheckId.repository_git pass
          (record c { revision = some revision; dirty = some dirty })
    | _ ↦ record_check CheckId.repository_git fail c
  ]

  unfoldable pub repository : Step
  unfolding git read_repository record_check
  repository c = git c >>= λ r. read_repository r.0.0 r.0.1 r.1

  read_workflow : Bytes → Bytes → Bytes → Step
  read_workflow config_raw tasks_raw ledger_raw c = elim (e.parse_toml_bytes config_raw) [
    | none ↦ record_check CheckId.workflow_task fail c
    | some config ↦ elim (e.parse_toml_bytes tasks_raw) [
      | none ↦ record_check CheckId.workflow_task fail c
      | some tasks ↦ elim (e.decode_utf8 ledger_raw) [
        | none ↦ record_check CheckId.workflow_task fail c
        | some ledger ↦
            let (errors, active) = e.validate_models config tasks ledger in
            if is_empty errors
            then record_check CheckId.workflow_task pass (record c { active_task = active })
            else record_check CheckId.workflow_task fail c
      ]
    ]
  ]

  read_ledger : Bytes → Bytes → Step
  unfolding read_workflow
  read_ledger config_raw tasks_raw c =
      elim (e.read_regular "docs/maintainers/ledger.md" max_workflow_bytes) [
        | input_unavailable ↦ record_check CheckId.workflow_task unavailable c
        | input_contract ↦ record_check CheckId.workflow_task fail c
        | got ledger_raw ↦ read_workflow config_raw tasks_raw ledger_raw c
      ]

  read_tasks : Bytes → Step
  unfolding read_ledger
  read_tasks config_raw c = elim (e.read_regular "docs/maintainers/tasks.toml" max_workflow_bytes) [
    | input_unavailable ↦ record_check CheckId.workflow_task unavailable c
    | input_contract ↦ record_check CheckId.workflow_task fail c
    | got tasks_raw ↦ read_ledger config_raw tasks_raw c
  ]

  read_config : Step
  unfolding read_tasks
  read_config c = elim (e.read_regular "docs/maintainers/config.toml" max_workflow_bytes) [
    | input_unavailable ↦ record_check CheckId.workflow_task unavailable c
    | input_contract ↦ record_check CheckId.workflow_task fail c
    | got config_raw ↦ read_tasks config_raw c
  ]

  unfoldable pub workflow : Step
  unfolding read_config record_check
  workflow c = read_config (record c { active_task = none })

  unfoldable pub read_dirty : Step
  unfolding record_check
  read_dirty c = elim c.dirty [
    | none ↦ record_check CheckId.repository_clean unavailable c
    | some dirty ↦ record_check CheckId.repository_clean (if dirty then warning else pass) c
  ]

  unfoldable pub cleanliness : Step
  unfolding record_check read_dirty
  cleanliness = unless_blocked (CheckId.repository_git ∷ []) CheckId.repository_clean read_dirty

  unfoldable pub tool_git : Step
  unfolding git record_check
  tool_git c = git c >>= λ r. record_check CheckId.tool_git r.0.1 r.1

  unfoldable pub tool_ssh : Step
  unfolding record_check
  tool_ssh c = elim (e.resolve_native "ssh") [
    | tool_unavailable ↦ record_check CheckId.tool_ssh unavailable c
    | tool_contract ↦ record_check CheckId.tool_ssh fail c
    | os_error ↦ err propagated
    | done executable ↦ record_check CheckId.tool_ssh pass c
  ]
