-- ===== src/Diagnostics/Runs.antt =====
-- The checks of scripts/diagnostics.py `command_document`, for every answer of the environment.
use mathlib.Core.Path.{ap₂}
use yocto_qemu_edu_lab.Common.{
  ℕ, ◌≤◌, ◌≡◌, refl, sym, ap, subst, ◌∙◌, List, [], ◌∷◌, map, drop, arith, ok, >>=-eq-ok, All,
}
use yocto_qemu_edu_lab.Diagnostics.Checks.{
  CheckId, check, Check, Command, status, doctor, inspect, evidence, sequences,
}
use yocto_qemu_edu_lab.Diagnostics.Environment.{Environment}
use yocto_qemu_edu_lab.Diagnostics.Context.{
  source_lock, lab_catalog, selection, Context, Step, set_status,
}
use yocto_qemu_edu_lab.Diagnostics.Transitions.{statuses_from}
use yocto_qemu_edu_lab.Diagnostics.Commands.{run_all, steps, extra, evidence_checks}
use yocto_qemu_edu_lab.Diagnostics.Steps.Held.{IsBacked}
use yocto_qemu_edu_lab.Diagnostics.Steps.Order.{Ordered, Chain, finish, follow, step-Ordered}
use yocto_qemu_edu_lab.Diagnostics.Steps.Chain
use yocto_qemu_edu_lab.Diagnostics.Steps.Chain.{IsLeaf}

pub run_all-cons :
    (m : Step) (ms : List Step) (c : Context) {ks : List Check} {d : Context}
    → run_all (m ∷ ms) c ≡ ok (ks, d)
    → (k : Check) × (b : Context) × (rest : List Check) × (m c ≡ ok (k, b))
      × (run_all ms b ≡ ok (rest, d))
      × (ks ≡ k ∷ rest)
unfolding run_all
run_all-cons m ms c h =
    let ((k, b), first, h') = >>=-eq-ok (m c) _ h in
    let ((rest, d'), later, e) = >>=-eq-ok (run_all ms b) _ h' in
    (k, b, rest, first, later ∙ cc, cc)

-- What the steps of a chain leave behind.
pub record Follows (is : List CheckId) (c : Context) (ks : List Check) (d : Context) : Type 0 where
  pub ids : map (λ k. k.id) ks ≡ is
  pub made : All (λ k. check k.id k.status ≡ ok k) ks
  pub backed : IsBacked d
  pub statuses : d.statuses ≡ statuses_from c.statuses ks
  pub last : ℕ
  pub ordered : Ordered last d.statuses

pub Chain-Follows :
    {n : ℕ} {ms : List Step} {is : List CheckId} (chain : Chain n ms is) (c : Context)
    (ks : List Check) (d : Context)
    → IsBacked c
    → Ordered n c.statuses
    → run_all ms c ≡ ok (ks, d)
    → Follows is c ks d
unfolding run_all
Chain-Follows {n} finish c ks d b o h =
    let stop : c ≡ d = cc in
    let none_made : ks ≡ [] = cc in
    rw (none_made, ← stop)
      (record { ids = refl; made = tt; backed = b; statuses = refl; last = n; ordered = o })
Chain-Follows {n} (follow {m = m} {ms = ms} i le st chain) c ks d b o h =
    let (k, a, rest, first, later, all_made) = run_all-cons m ms c h in
    let f =
      Chain-Follows chain a rest d (st.keeps c k a first b)
        (step-Ordered n i m le st c k a first b o) later in
    let r = st.records c k a first in
    rw all_made (record {
      ids = ap₂ ◌∷◌ r.id f.ids;
      made = (subst (λ x. check x k.status ≡ ok k) (sym r.id) r.made, f.made);
      backed = f.backed;
      statuses =
          f.statuses
          ∙ ap (λ x. statuses_from x rest)
              (r.statuses ∙ ap (λ x. set_status c.statuses x k.status) (sym r.id));
      last = f.last;
      ordered = f.ordered;
    })

bitbake-IsLeaf : IsLeaf CheckId.source_bitbake (CheckId.tool_git ∷ CheckId.source_lock ∷ [])
bitbake-IsLeaf = ground arith

openembedded_core-IsLeaf :
    IsLeaf CheckId.source_openembedded_core (CheckId.tool_git ∷ CheckId.source_lock ∷ [])
openembedded_core-IsLeaf = ground arith

meta_yocto-IsLeaf : IsLeaf CheckId.source_meta_yocto (CheckId.tool_git ∷ CheckId.source_lock ∷ [])
meta_yocto-IsLeaf = ground arith

local_conf-IsLeaf : IsLeaf CheckId.build_local_conf (CheckId.lab_selection ∷ [])
local_conf-IsLeaf = ground arith

bblayers_conf-IsLeaf : IsLeaf CheckId.build_bblayers_conf (CheckId.lab_selection ∷ [])
bblayers_conf-IsLeaf = ground arith

module _ (e : Environment) where
  evidence-Chain :
      (n : ℕ)
      → n ≤ 14
      → Chain n (evidence_checks e) (
          CheckId.evidence_file ∷ CheckId.evidence_document ∷ CheckId.evidence_result
          ∷ CheckId.evidence_inputs ∷ CheckId.evidence_subject ∷ [])
  evidence-Chain n le = follow _ le (Chain.evidence_file-IsStep e) (
      follow _ (omega arith) (Chain.evidence_document_check-IsStep e) (
        follow _ (omega arith) (Chain.evidence_result_check-IsStep e) (
          follow _ (omega arith) (Chain.evidence_inputs_check-IsStep e)
            (follow _ (omega arith) (Chain.evidence_subject_check-IsStep e) finish))))

  doctor-Chain : Chain 6 (extra e doctor) (drop 6 (sequences doctor))
  doctor-Chain = follow _ (omega arith) (Chain.tool_git-IsStep e) (
      follow _ (omega arith) (Chain.tool_ssh-IsStep e) (
        follow _ (omega arith) (Chain.source_checkout-IsStep e "bitbake" _ bitbake-IsLeaf) (
          follow _ (omega arith)
            (Chain.source_checkout-IsStep e "openembedded-core" _ openembedded_core-IsLeaf)
            (follow _ (omega arith)
              (Chain.source_checkout-IsStep e "meta-yocto" _ meta_yocto-IsLeaf)
              (follow _ (omega arith) (Chain.build_file-IsStep e "local.conf" _ local_conf-IsLeaf) (
                follow _ (omega arith)
                  (Chain.build_file-IsStep e "bblayers.conf" _ bblayers_conf-IsLeaf)
                  (evidence-Chain 14 (omega arith))))))))

  inputs-Chain :
      {ms : List Step} {is : List CheckId} (n : ℕ)
      → n ≤ 3
      → Chain 6 ms is
      → Chain n
          (source_lock e ∷ lab_catalog e ∷ selection e ∷ ms)
          (CheckId.source_lock ∷ CheckId.lab_catalog ∷ CheckId.lab_selection ∷ is)
  inputs-Chain n le rest = follow _ le (Chain.source_lock-IsStep e) (
      follow _ (omega arith) (Chain.lab_catalog-IsStep e)
        (follow _ (omega arith) (Chain.selection-IsStep e) rest))

  -- The steps of every command make the checks of its sequence.
  pub command-Chain : (command : Command) → Chain 0 (steps e command) (sequences command)
  command-Chain status = follow _ (omega arith) (Chain.project_version-IsStep e) (
      follow _ (omega arith) (Chain.repository-IsStep e) (
        follow _ (omega arith) (Chain.workflow-IsStep e) (
          inputs-Chain 3 (omega arith)
            (follow _ (omega arith) (Chain.cleanliness-IsStep e) finish))))
  command-Chain doctor = follow _ (omega arith) (Chain.project_version-IsStep e) (
      follow _ (omega arith) (Chain.repository-IsStep e) (
        follow _ (omega arith) (Chain.workflow-IsStep e)
          (inputs-Chain 3 (omega arith) doctor-Chain)))
  command-Chain inspect =
      follow _ (omega arith) (Chain.project_version-IsStep e)
        (follow _ (omega arith) (Chain.repository-IsStep e) (inputs-Chain 2 (omega arith) finish))
  command-Chain evidence = follow _ (omega arith) (Chain.project_version-IsStep e) (
      follow _ (omega arith) (Chain.repository-IsStep e)
        (inputs-Chain 2 (omega arith) (evidence-Chain 6 (omega arith))))
