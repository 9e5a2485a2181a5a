-- ===== src/RuntimeEvidence/Paths.antt =====
-- scripts/runtime_evidence.py: the paths of the contract, as the statuses of the tests require
-- them. They are named as in `validate_evidence` and built the same in `build_evidence`.
use yocto_qemu_edu_lab.Common.{ℕ, String, true, false, List, [], ◌∷◌}
use yocto_qemu_edu_lab.Json.{bool, int, pos, str, arr, obj, nil, cons, Items, Fields, end, field}
use yocto_qemu_edu_lab.RuntimeEvidence.Suite.{nth, passed_at}

abbrev pub texts_value : List String → Items
texts_value [] = nil
texts_value (text ∷ texts) = cons (str text) (texts_value texts)

-- a name and the keys of the path
abbrev pub KeyTable : Type 0
KeyTable = List (String × List String)

abbrev pub interrupt_keys : KeyTable
interrupt_keys =
    ("default_msi", "case_id" ∷ "exercised" ∷ "requested" ∷ "selected" ∷ [])
    ∷ ("explicit_intx", "case_id" ∷ "exercised" ∷ "requested" ∷ "selected" ∷ [])
    ∷ ("automatic_fallback", "case_id" ∷ "exercised" ∷ "requested" ∷ "selected" ∷ "mechanism" ∷ [])
    ∷ (
      "required_msi_failure",
      "case_id" ∷ "exercised" ∷ "requested" ∷ "device_unbound" ∷ "mechanism" ∷ [],
    )
    ∷ ("cleanup_recovery", "case_id" ∷ "exercised" ∷ "restored" ∷ [])
    ∷ []

abbrev pub dma_keys : KeyTable
dma_keys =
    (
      "bounded_interface",
      "case_id" ∷ "exercised" ∷ "mask_bits" ∷ "buffer_size_bytes" ∷ "length_only"
          ∷ "address_exposed" ∷ [],
    )
    ∷ (
      "roundtrip_boundaries",
      "case_id" ∷ "exercised" ∷ "minimum_length" ∷ "maximum_length" ∷ "directions"
          ∷ "completion_irq_status" ∷ "interrupts_per_roundtrip" ∷ [],
    )
    ∷ ("input_rejection", "case_id" ∷ "exercised" ∷ "classes" ∷ "preserves_last_result" ∷ [])
    ∷ (
      "timeout_recovery",
      "case_id" ∷ "exercised" ∷ "fault_injected" ∷ "mechanism" ∷ "restored" ∷ [],
    )
    ∷ ("teardown_rebind", "case_id" ∷ "exercised" ∷ "restored" ∷ [])
    ∷ []

module _ (tests statuses : List String) where
  -- the test of a path and whether it has passed, before its other fields
  abbrev path : ℕ → Fields → Fields
  path index fields =
      field "case_id" (str (nth tests index))
        (field "exercised" (bool (passed_at statuses index)) fields)

  abbrev pub expected_timeout : ℕ → Fields
  expected_timeout index = path index (
      field "fault_injected" (bool (passed_at statuses index))
        (field "mechanism" (str "module-parameter:force_factorial_timeout") end))

  abbrev pub expected_absence : ℕ → Fields
  expected_absence index = path index (
      field "mechanism" (str "linux-pci-hot-remove")
        (field "cold_boot_without_device" (bool false) end))

  abbrev pub expected_interrupt_paths : Fields
  expected_interrupt_paths =
      field "default_msi"
        (obj (path 7 (field "requested" (str "auto") (field "selected" (str "msi") end))))
        (field "explicit_intx"
          (obj (path 8 (field "requested" (str "intx") (field "selected" (str "intx") end))))
          (field "automatic_fallback"
            (obj (
              path 9 (
                field "requested" (str "auto") (
                  field "selected" (str "intx")
                    (field "mechanism" (str "pci-device-msi_bus") end)))))
            (field "required_msi_failure"
              (obj (
                path 10 (
                  field "requested" (str "msi") (
                    field "device_unbound" (bool (passed_at statuses 10))
                      (field "mechanism" (str "pci-device-msi_bus") end)))))
              (field "cleanup_recovery" (obj (path 10 (field "restored" (str "auto-msi") end)))
                end))))

  abbrev pub expected_dma_paths : Fields
  expected_dma_paths =
      field "bounded_interface"
        (obj (
          path 14 (
            field "mask_bits" (int (pos 28)) (
              field "buffer_size_bytes" (int (pos 4096))
                (field "length_only" (bool true) (field "address_exposed" (bool false) end))))))
        (field "roundtrip_boundaries"
          (obj (
            path 15 (
              field "minimum_length" (int (pos 1)) (
                field "maximum_length" (int (pos 4096)) (
                  field "directions" (arr (texts_value ("ram-to-edu" ∷ "edu-to-ram" ∷ []))) (
                    field "completion_irq_status" (str "0x00000100")
                      (field "interrupts_per_roundtrip" (int (pos 2)) end)))))))
          (field "input_rejection"
            (obj (
              path 16 (
                field "classes"
                  (arr (texts_value ("zero" ∷ "over-limit" ∷ "negative" ∷ "malformed" ∷ [])))
                  (field "preserves_last_result" (bool true) end))))
            (field "timeout_recovery"
              (obj (
                path 17 (
                  field "fault_injected" (bool (passed_at statuses 17)) (
                    field "mechanism" (str "module-parameter:force_dma_timeout")
                      (field "restored" (str "default-auto-msi-and-dma") end)))))
              (field "teardown_rebind"
                (obj (path 18 (field "restored" (str "default-auto-msi-and-dma") end))) end))))
