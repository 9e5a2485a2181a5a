-- ===== src/Diagnostics/Kept.antt =====
-- The methods of `Context` in scripts/diagnostics.py that leave the lock and the labs as they are.
use yocto_qemu_edu_lab.Common.{String, ◌≡◌, ap, ◌∙◌, List, [], ◌∷◌, arith, ok, inl, inr}
use yocto_qemu_edu_lab.Diagnostics.Checks.{
  CheckId, Check, Command, status, doctor, inspect, evidence,
}
use yocto_qemu_edu_lab.Diagnostics.Environment.{Environment}
use yocto_qemu_edu_lab.Diagnostics.Context.{
  Context, Step, project_version, repository, workflow, cleanliness, read_dirty, tool_git, tool_ssh,
  source_checkout, build_file, evidence_file, read_evidence, evidence_document_check,
  parse_evidence, evidence_result_check, read_result, evidence_inputs_check, read_inputs,
  evidence_subject_check, read_subject, unless_blocked,
}
use yocto_qemu_edu_lab.Diagnostics.Steps.Backed.{find_checkout-status, read_build_file-status}
use yocto_qemu_edu_lab.Diagnostics.Commands.{run_all, extra, evidence_checks}
use yocto_qemu_edu_lab.Diagnostics.Runs.{run_all-cons}
use yocto_qemu_edu_lab.Diagnostics.Found.{Keeps, with_status-Keeps, unless_blocked-cases}

abbrev pub AlwaysKeeps : Step → Type 0
AlwaysKeeps m = (c : Context) (k : Check) (d : Context) → m c ≡ ok (k, d) → Keeps c d

unless_blocked-AlwaysKeeps :
    (ids : List CheckId) (i : CheckId) (m : Step)
    → AlwaysKeeps m
    → AlwaysKeeps (unless_blocked ids i m)
unless_blocked-AlwaysKeeps ids i m f c k d h = elim (unless_blocked-cases ids i m c h) [
  | inl stuck ↦ stuck
  | inr clear ↦ f c k d clear
]

-- steps that all keep the lock and the labs
abbrev pub AllKeep : List Step → Type 0
AllKeep [] = Unit
AllKeep (m ∷ ms) = AlwaysKeeps m × AllKeep ms

Keeps-trans : {a b c : Context} → Keeps a b → Keeps b c → Keeps a c
Keeps-trans p q = record {
  lock = q.lock ∙ p.lock;
  lab_id = q.lab_id ∙ p.lab_id;
  manifests = q.manifests ∙ p.manifests;
  manifest = q.manifest ∙ p.manifest;
}

pub run_all-Keeps :
    (ms : List Step) (c : Context) {ks : List Check} {d : Context}
    → AllKeep ms
    → run_all ms c ≡ ok (ks, d)
    → Keeps c d
unfolding run_all
run_all-Keeps [] c {ks} {d} all h =
    let stop : d ≡ c = cc in
    record {
      lock = ap (λ x. x.lock) stop;
      lab_id = ap (λ x. x.lab_id) stop;
      manifests = ap (λ x. x.manifests) stop;
      manifest = ap (λ x. x.manifest) stop;
    }
run_all-Keeps (m ∷ ms) c (first, others) h =
    let (k, b, rest, made, later, made_all) = run_all-cons m ms c h in
    Keeps-trans (first c k b made) (run_all-Keeps ms b others later)

module _ (e : Environment) where
  pub project_version-AlwaysKeeps : AlwaysKeeps (project_version e)
  unfolding project_version
  project_version-AlwaysKeeps c k d h = ground arith

  pub repository-AlwaysKeeps : AlwaysKeeps (repository e)
  unfolding repository
  repository-AlwaysKeeps c k d h = ground arith

  pub workflow-AlwaysKeeps : AlwaysKeeps (workflow e)
  unfolding workflow
  workflow-AlwaysKeeps c k d h = ground arith

  pub tool_git-AlwaysKeeps : AlwaysKeeps (tool_git e)
  unfolding tool_git
  tool_git-AlwaysKeeps c k d h = ground arith

  pub tool_ssh-AlwaysKeeps : AlwaysKeeps (tool_ssh e)
  unfolding tool_ssh
  tool_ssh-AlwaysKeeps c k d h = ground arith

  read_dirty-AlwaysKeeps : AlwaysKeeps (read_dirty e)
  unfolding read_dirty
  read_dirty-AlwaysKeeps c k d h = ground arith

  pub cleanliness-AlwaysKeeps : AlwaysKeeps (cleanliness e)
  unfolding cleanliness
  cleanliness-AlwaysKeeps = unless_blocked-AlwaysKeeps _ _ _ read_dirty-AlwaysKeeps

  read_evidence-AlwaysKeeps : AlwaysKeeps (read_evidence e)
  unfolding read_evidence
  read_evidence-AlwaysKeeps c k d h = ground arith

  pub evidence_file-AlwaysKeeps : AlwaysKeeps (evidence_file e)
  unfolding evidence_file
  evidence_file-AlwaysKeeps = unless_blocked-AlwaysKeeps _ _ _ read_evidence-AlwaysKeeps

  parse_evidence-AlwaysKeeps : AlwaysKeeps (parse_evidence e)
  unfolding parse_evidence
  parse_evidence-AlwaysKeeps c k d h = ground arith

  pub evidence_document_check-AlwaysKeeps : AlwaysKeeps (evidence_document_check e)
  unfolding evidence_document_check
  evidence_document_check-AlwaysKeeps = unless_blocked-AlwaysKeeps _ _ _ parse_evidence-AlwaysKeeps

  read_result-AlwaysKeeps : AlwaysKeeps (read_result e)
  unfolding read_result
  read_result-AlwaysKeeps c k d h = ground arith

  pub evidence_result_check-AlwaysKeeps : AlwaysKeeps (evidence_result_check e)
  unfolding evidence_result_check
  evidence_result_check-AlwaysKeeps = unless_blocked-AlwaysKeeps _ _ _ read_result-AlwaysKeeps

  read_inputs-AlwaysKeeps : AlwaysKeeps (read_inputs e)
  unfolding read_inputs
  read_inputs-AlwaysKeeps c k d h = ground arith

  pub evidence_inputs_check-AlwaysKeeps : AlwaysKeeps (evidence_inputs_check e)
  unfolding evidence_inputs_check
  evidence_inputs_check-AlwaysKeeps = unless_blocked-AlwaysKeeps _ _ _ read_inputs-AlwaysKeeps

  read_subject-AlwaysKeeps : AlwaysKeeps (read_subject e)
  unfolding read_subject
  read_subject-AlwaysKeeps c k d h = ground arith

  pub evidence_subject_check-AlwaysKeeps : AlwaysKeeps (evidence_subject_check e)
  unfolding evidence_subject_check
  evidence_subject_check-AlwaysKeeps = unless_blocked-AlwaysKeeps _ _ _ read_subject-AlwaysKeeps

  pub source_checkout-AlwaysKeeps :
      (name : String) (i : CheckId) → AlwaysKeeps (source_checkout e name i)
  unfolding source_checkout
  source_checkout-AlwaysKeeps name i =
      unless_blocked-AlwaysKeeps _ _ _
        (λ c k d h. with_status-Keeps i k.status c (find_checkout-status e name i c k d h))

  pub build_file-AlwaysKeeps : (name : String) (i : CheckId) → AlwaysKeeps (build_file e name i)
  unfolding build_file
  build_file-AlwaysKeeps name i =
      unless_blocked-AlwaysKeeps _ _ _
        (λ c k d h. with_status-Keeps i k.status c (read_build_file-status e name i c k d h))

  evidence-AllKeep : AllKeep (evidence_checks e)
  evidence-AllKeep = (
    evidence_file-AlwaysKeeps,
    (
      evidence_document_check-AlwaysKeeps,
      (
        evidence_result_check-AlwaysKeeps,
        (evidence_inputs_check-AlwaysKeeps, (evidence_subject_check-AlwaysKeeps, tt)),
      ),
    ),
  )

  doctor-AllKeep : AllKeep (extra e doctor)
  doctor-AllKeep = (
    tool_git-AlwaysKeeps,
    (
      tool_ssh-AlwaysKeeps,
      (
        source_checkout-AlwaysKeeps _ _,
        (
          source_checkout-AlwaysKeeps _ _,
          (
            source_checkout-AlwaysKeeps _ _,
            (build_file-AlwaysKeeps _ _, (build_file-AlwaysKeeps _ _, evidence-AllKeep)),
          ),
        ),
      ),
    ),
  )

  pub extra-AllKeep : (command : Command) → AllKeep (extra e command)
  extra-AllKeep status = (cleanliness-AlwaysKeeps, tt)
  extra-AllKeep doctor = doctor-AllKeep
  extra-AllKeep inspect = tt
  extra-AllKeep evidence = evidence-AllKeep
