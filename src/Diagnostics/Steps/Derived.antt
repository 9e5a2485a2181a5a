-- ===== src/Diagnostics/Steps/Derived.antt =====
-- The methods of `Context` in scripts/diagnostics.py that are not blocked, and the statuses that follow.
use yocto_qemu_edu_lab.Common.{
  ◌≡◌, refl, Bool, true, false, not, List, [], ◌∷◌, all, any, some, arith, ok, inl, inr, Bool-cases,
}
use yocto_qemu_edu_lab.Diagnostics.Checks.{CheckId, Status, Check}
use yocto_qemu_edu_lab.Diagnostics.Environment.{Environment}
use yocto_qemu_edu_lab.Diagnostics.Context.{
  Context, Step, Statuses, is_open, blocked, unless_blocked, read_selection, read_dirty, tool_git,
  evidence_file, parse_evidence, read_result, read_inputs, read_subject, inputs_status,
}
use yocto_qemu_edu_lab.Diagnostics.Transitions.{
  is_bad, is_passed, allowed, dependency_ok, derived_ok, git_holds,
}
use yocto_qemu_edu_lab.Diagnostics.Steps.Held.{IsBacked, backed}

blocked-of-bad :
    (m : Statuses) (ids : List CheckId)
    → any (λ u. is_bad (m u)) ids ≡ true
    → any (λ u. not (is_open (m u))) ids ≡ true
blocked-of-bad m [] h = h
blocked-of-bad m (u ∷ us) h = ground (arith, blocked-of-bad m us)

-- The guard of a method is its entry of `dependencies`.
pub guarded_dependency :
    (ids : List CheckId) (i : CheckId) (m : Step) (c : Context) (k : Check) (d : Context)
    → unless_blocked ids i m c ≡ ok (k, d)
    → dependency_ok c.statuses ids k.status ≡ true
unfolding unless_blocked
guarded_dependency ids i m c k d h = ground (arith, blocked-of-bad c.statuses ids)

-- A method that is not blocked runs.
pub guarded_run :
    (ids : List CheckId) (i : CheckId) (m : Step) (c : Context) (k : Check) (d : Context)
    → blocked ids c ≡ false
    → unless_blocked ids i m c ≡ ok (k, d)
    → m c ≡ ok (k, d)
unfolding unless_blocked
guarded_run ids i m c k d clear h = rw clear at h

pub blocked-of-passed :
    (m : Statuses) (ids : List CheckId)
    → all (λ u. is_passed (m u)) ids ≡ true
    → any (λ u. not (is_open (m u))) ids ≡ false
blocked-of-passed m [] h = refl
blocked-of-passed m (u ∷ us) h = ground (arith, blocked-of-passed m us)

pub derived-split :
    (m : Statuses) (us : List CheckId) (allow : Status → Bool) (s : Status)
    → (all (λ u. is_passed (m u)) us ≡ true → allow s ≡ true)
    → derived_ok m us allow s ≡ true
derived-split m us allow s f = elim (Bool-cases (all (λ u. is_passed (m u)) us)) [
  | inl passed ↦ rw passed (f passed)
  | inr other ↦ rw other refl
]

module _ (e : Environment) (c : Context) (k : Check) (d : Context) (b : IsBacked c) where
  pub read_selection-derived :
      is_passed (c.statuses CheckId.lab_catalog) ≡ true
      → read_selection e c ≡ ok (k, d)
      → allowed CheckId.lab_selection k.status ≡ true
  unfolding read_selection
  read_selection-derived p h = ground arith

  pub read_dirty-derived :
      is_passed (c.statuses CheckId.repository_git) ≡ true
      → read_dirty e c ≡ ok (k, d)
      → allowed CheckId.repository_clean k.status ≡ true
  unfolding read_dirty
  read_dirty-derived p h = ground arith

  pub parse_evidence-derived :
      is_passed (c.statuses CheckId.evidence_file) ≡ true
      → parse_evidence e c ≡ ok (k, d)
      → allowed CheckId.evidence_document k.status ≡ true
  unfolding parse_evidence
  parse_evidence-derived p h = ground arith

  pub read_result-derived :
      is_passed (c.statuses CheckId.evidence_document) ≡ true
      → read_result e c ≡ ok (k, d)
      → allowed CheckId.evidence_result k.status ≡ true
  unfolding read_result
  read_result-derived p h = ground arith

  pub read_inputs-derived :
      is_passed (c.statuses CheckId.evidence_document) ≡ true
      → is_passed (c.statuses CheckId.lab_selection) ≡ true
      → read_inputs e c ≡ ok (k, d)
      → allowed CheckId.evidence_inputs k.status ≡ true
  unfolding read_inputs inputs_status
  read_inputs-derived p q h = ground arith

  pub read_subject-derived :
      is_passed (c.statuses CheckId.evidence_document) ≡ true
      → is_passed (c.statuses CheckId.repository_git) ≡ true
      → read_subject e c ≡ ok (k, d)
      → allowed CheckId.evidence_subject k.status ≡ true
  unfolding read_subject
  read_subject-derived p q h = ground arith

  pub tool_git-states :
      tool_git e c ≡ ok (k, d)
      → git_holds (c.statuses CheckId.repository_git) (some k.status) ≡ true
  unfolding tool_git
  tool_git-states h = ground arith

  pub file-open :
      evidence_file e c ≡ ok (k, d)
      → backed (some k.status) (is_open (c.statuses CheckId.lab_selection)) ≡ true
  unfolding evidence_file unless_blocked
  file-open h = ground arith
