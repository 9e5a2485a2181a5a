-- ===== src/Diagnostics/Context/Inputs.antt =====
-- scripts/diagnostics.py: the methods of `Context` about the source lock, the lab catalog, the
-- selected lab, the source checkouts and the build configuration.
use Prim.Native.String
use yocto_qemu_edu_lab.Common.{
  ℕ, String, str_eq, lookup, insert, Bool, true, false, ◌&&◌, Option, none, some, List, [], ◌∷◌,
  all, if◌then◌else◌, err,
}
use yocto_qemu_edu_lab.Diagnostics.Checks.{
  CheckId, pass, fail, unavailable, argument_error, stop_iteration,
}
use yocto_qemu_edu_lab.Diagnostics.Environment.{
  Environment, Input, got, input_unavailable, input_contract, done, Bytes, Source, Lock, Entry,
  Index,
}
use yocto_qemu_edu_lab.Diagnostics.Context.State.{Context, Step, record_check, unless_blocked}

abbrev pub max_json_bytes : ℕ
max_json_bytes = 65536

abbrev max_build_file_bytes : ℕ
max_build_file_bytes = 4194304

infixl 65 ◌▸◌
abbrev pub ◌▸◌ : String → String → String
s ▸ t = String.◌++◌ s t

abbrev is_got {ℓ} : {A : Type ℓ} → Input A → Bool
is_got (got a) = true
is_got _ = false

-- `next(item for item in sources if item["id"] == source_id)`
unfoldable pub find_source : String → List Source → Option Source
find_source i [] = none
find_source i (s ∷ ss) = if str_eq s.id i then some s else find_source i ss

-- `table.get(lab_id)`; no key is None
unfoldable pub find_in {ℓ} : {V : Type ℓ} → Option String → List (String × V) → Option V
unfolding lookup
find_in none table = none
find_in (some lab) table = lookup lab table

-- both must have been found
unfoldable pub select : Step
select c = elim c.manifest [
  | none ↦ err argument_error
  | some manifest ↦ elim c.manifest_digest [
    | none ↦ err argument_error
    | some digest ↦ record_check CheckId.lab_selection pass c
  ]
]

module _ (e : Environment) where
  unfoldable pub source_lock : Step
  unfolding record_check
  source_lock c = elim (e.read_regular "config/sources.lock.json" max_json_bytes) [
    | input_unavailable ↦ record_check CheckId.source_lock unavailable c
    | input_contract ↦ record_check CheckId.source_lock fail c
    | got raw ↦ elim (e.parse_lock_bytes raw) [
      | none ↦ record_check CheckId.source_lock fail c
      | some (lock, digest) ↦
          record_check CheckId.source_lock pass
            (record c { lock = some lock; lock_digest = some digest })
    ]
  ]

  -- the manifests in the order of the index; the first that cannot be read ends the loop
  unfoldable pub read_manifests : List Entry → List (String × Bytes) → Input (List (String × Bytes))
  read_manifests [] read = got read
  read_manifests (entry ∷ entries) read = elim (e.read_regular entry.manifest max_json_bytes) [
    | input_unavailable ↦ input_unavailable
    | input_contract ↦ input_contract
    | got raw ↦ read_manifests entries (insert entry.manifest raw read)
  ]

  -- `if self.lab_id is None: self.lab_id = index["default_lab"]`
  unfoldable pub select_default : Index → Context → Context
  select_default index c = elim c.lab_id [
    | none ↦ record c { lab_id = some index.default_lab }
    | some lab ↦ c
  ]

  unfoldable pub read_labs : Bytes → Index → Lock → Step
  unfolding read_manifests
  read_labs index_raw index lock c = elim (read_manifests index.labs []) [
    | input_unavailable ↦ record_check CheckId.lab_catalog unavailable c
    | input_contract ↦ record_check CheckId.lab_catalog fail c
    | got manifest_bytes ↦ elim (e.read_catalog_bytes index_raw manifest_bytes lock) [
      | none ↦ record_check CheckId.lab_catalog fail c
      | some catalog ↦ record_check CheckId.lab_catalog pass (record c {
        catalog = some catalog.index;
        index_digest = some catalog.index_digest;
        manifests = some catalog.manifests;
        manifest_digests = some catalog.manifest_digests;
      })
    ]
  ]

  unfoldable pub read_index : Lock → Step
  unfolding read_labs select_default
  read_index lock c = elim (e.read_regular "config/labs/index.json" max_json_bytes) [
    | input_unavailable ↦ record_check CheckId.lab_catalog unavailable c
    | input_contract ↦ record_check CheckId.lab_catalog fail c
    | got index_raw ↦ elim (e.parse_index_bytes index_raw) [
      | none ↦ record_check CheckId.lab_catalog fail c
      | some index ↦ read_labs index_raw index lock (select_default index c)
    ]
  ]

  unfoldable pub read_catalog : Step
  unfolding read_index record_check
  read_catalog c = elim c.lock [
    | none ↦ record_check CheckId.lab_catalog unavailable c
    | some lock ↦ read_index lock c
  ]

  unfoldable pub lab_catalog : Step
  unfolding read_catalog
  lab_catalog = unless_blocked (CheckId.source_lock ∷ []) CheckId.lab_catalog read_catalog

  unfoldable pub read_selection : Step
  unfolding record_check find_in select
  read_selection c = elim c.manifests [
    | none ↦ record_check CheckId.lab_selection unavailable c
    | some manifests ↦ elim c.manifest_digests [
      | none ↦ record_check CheckId.lab_selection unavailable c
      | some digests ↦ select (record c {
        manifest = find_in c.lab_id manifests;
        manifest_digest = find_in c.lab_id digests;
      })
    ]
  ]

  unfoldable pub selection : Step
  unfolding read_selection
  selection = unless_blocked (CheckId.lab_catalog ∷ []) CheckId.lab_selection read_selection

  read_checkout : Source → String → CheckId → Step
  read_checkout source executable i c = elim (e.require_directory source.path) [
    | input_unavailable ↦ record_check i unavailable c
    | input_contract ↦ record_check i fail c
    | got path ↦ elim (e.checkout_matches executable path source) [
      | done matches ↦
          let present =
            λ (required : String). is_got (e.require_entry (source.path ▸ "/" ▸ required)) in
          record_check i (if matches && all present source.required_paths then pass else fail) c
      | _ ↦ record_check i fail c
    ]
  ]

  -- `source_checkout(source_id)`; `i` is the check `source.` followed by the id
  unfoldable pub find_checkout : String → CheckId → Step
  unfolding read_checkout record_check
  find_checkout source_id i c = elim c.lock [
    | none ↦ record_check i unavailable c
    | some lock ↦ elim c.git_executable [
      | none ↦ record_check i unavailable c
      | some executable ↦ elim (find_source source_id lock.sources) [
        | none ↦ err stop_iteration
        | some source ↦ read_checkout source executable i c
      ]
    ]
  ]

  unfoldable pub source_checkout : String → CheckId → Step
  unfolding find_checkout
  source_checkout source_id i =
      unless_blocked (CheckId.tool_git ∷ CheckId.source_lock ∷ []) i (find_checkout source_id i)

  -- `build_file(name)`; `i` is the check `build.` followed by the name with a dash for its dot
  unfoldable pub read_build_file : String → CheckId → Step
  unfolding record_check
  read_build_file name i c = elim c.manifest [
    | none ↦ record_check i unavailable c
    | some manifest ↦
        elim (e.read_regular (manifest.build_dir ▸ "/conf/" ▸ name) max_build_file_bytes) [
          | input_unavailable ↦ record_check i unavailable c
          | input_contract ↦ record_check i fail c
          | got raw ↦ record_check i pass c
        ]
  ]

  unfoldable pub build_file : String → CheckId → Step
  unfolding read_build_file
  build_file name i = unless_blocked (CheckId.lab_selection ∷ []) i (read_build_file name i)
