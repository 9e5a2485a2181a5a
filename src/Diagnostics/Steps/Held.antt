-- ===== src/Diagnostics/Steps/Held.antt =====
-- What the context of scripts/diagnostics.py holds for a check that has passed.
use yocto_qemu_edu_lab.Common.{
  Bool-cases, ◌≡◌, refl, Bool, true, false, Option, none, some, List, ok, Result, ◌⊎◌, inl, inr,
  Bool-cases, if◌then◌else◌,
}
use yocto_qemu_edu_lab.Diagnostics.Checks.{
  CheckId, Status, pass, unavailable, Raised, Check, same_id,
}
use yocto_qemu_edu_lab.Diagnostics.Context.{Context, Step, blocked, set_status, unless_blocked}
use yocto_qemu_edu_lab.Diagnostics.Transitions.{is_passed, tool_states}

abbrev pub is_some {ℓ} : {A : Type ℓ} → Option A → Bool
is_some none = false
is_some (some a) = true

-- a passed check is backed by its data
abbrev pub backed : Option Status → Bool → Bool
backed (some pass) b = b
backed _ b = true

abbrev pub git_backed : Option Status → Option Status → Bool
git_backed none state = true
git_backed (some found) none = false
git_backed (some found) (some state) = tool_states found state

pub record IsBacked (c : Context) : Type 0 where
  pub version : backed (c.statuses CheckId.project_version) (is_some c.version) ≡ true
  pub lock : backed (c.statuses CheckId.source_lock) (is_some c.lock) ≡ true
  pub manifests : backed (c.statuses CheckId.lab_catalog) (is_some c.manifests) ≡ true
  pub digests : backed (c.statuses CheckId.lab_catalog) (is_some c.manifest_digests) ≡ true
  pub manifest : backed (c.statuses CheckId.lab_selection) (is_some c.manifest) ≡ true
  pub revision : backed (c.statuses CheckId.repository_git) (is_some c.revision) ≡ true
  pub dirty : backed (c.statuses CheckId.repository_git) (is_some c.dirty) ≡ true
  pub raw : backed (c.statuses CheckId.evidence_file) (is_some c.evidence_raw) ≡ true
  pub document : backed (c.statuses CheckId.evidence_document) (is_some c.evidence_document) ≡ true
  pub executable : is_some c.git_executable ≡ is_passed c.git_state
  pub state : git_backed (c.statuses CheckId.repository_git) c.git_state ≡ true

abbrev pub KeepsBacked : Step → Type 0
KeepsBacked m = (c : Context) (k : Check) (d : Context) → m c ≡ ok (k, d) → IsBacked c → IsBacked d

abbrev unavailable_at : CheckId → Context → Context
unavailable_at i c = record c { statuses = set_status c.statuses i unavailable }

backed-unavailable :
    (i j : CheckId) (c : Context) (x : Bool)
    → backed (c.statuses j) x ≡ true
    → backed ((unavailable_at i c).statuses j) x ≡ true
backed-unavailable i j c x h = elim (Bool-cases (same_id i j)) [
  | inl same ↦ rw same refl
  | inr other ↦ rw other h
]

-- A check that is unavailable promises no data.
IsBacked-unavailable :
    (i : CheckId) (c : Context)
    → same_id i CheckId.repository_git ≡ false
    → IsBacked c
    → IsBacked (unavailable_at i c)
IsBacked-unavailable i c other b = record {
  version = backed-unavailable i CheckId.project_version c _ b.version;
  lock = backed-unavailable i CheckId.source_lock c _ b.lock;
  manifests = backed-unavailable i CheckId.lab_catalog c _ b.manifests;
  digests = backed-unavailable i CheckId.lab_catalog c _ b.digests;
  manifest = backed-unavailable i CheckId.lab_selection c _ b.manifest;
  revision = backed-unavailable i CheckId.repository_git c _ b.revision;
  dirty = backed-unavailable i CheckId.repository_git c _ b.dirty;
  raw = backed-unavailable i CheckId.evidence_file c _ b.raw;
  document = backed-unavailable i CheckId.evidence_document c _ b.document;
  executable = b.executable;
  state = rw other b.state;
}

abbrev Made : Type 0
Made = Result Raised (Check × Context)

either_branch : (b : Bool) {x y z : Made} → (if b then x else y) ≡ z → (x ≡ z) ⊎ (y ≡ z)
either_branch true h = inl h
either_branch false h = inr h

-- A guarded method makes its check unavailable, or runs.
unless_blocked-cases :
    (ids : List CheckId) (i : CheckId) (m : Step) (c : Context) {k : Check} {d : Context}
    → unless_blocked ids i m c ≡ ok (k, d)
    → (d ≡ unavailable_at i c) ⊎ (m c ≡ ok (k, d))
unfolding unless_blocked
unless_blocked-cases ids i m c h = elim (either_branch (blocked ids c) h) [
  | inl stuck ↦ inl (cc)
  | inr clear ↦ inr clear
]

-- A check whose status promises nothing of the data.
pub record IsPlain (i : CheckId) : Type 0 where
  pub not_version : same_id i CheckId.project_version ≡ false
  pub not_lock : same_id i CheckId.source_lock ≡ false
  pub not_catalog : same_id i CheckId.lab_catalog ≡ false
  pub not_selection : same_id i CheckId.lab_selection ≡ false
  pub not_git : same_id i CheckId.repository_git ≡ false
  pub not_file : same_id i CheckId.evidence_file ≡ false
  pub not_document : same_id i CheckId.evidence_document ≡ false

abbrev pub with_status : CheckId → Status → Context → Context
with_status i s c = record c { statuses = set_status c.statuses i s }

pub IsBacked-plain :
    (i : CheckId) (s : Status) (c : Context) → IsPlain i → IsBacked c → IsBacked (with_status i s c)
IsBacked-plain i s c p b = record {
  version = rw p.not_version b.version;
  lock = rw p.not_lock b.lock;
  manifests = rw p.not_catalog b.manifests;
  digests = rw p.not_catalog b.digests;
  manifest = rw p.not_selection b.manifest;
  revision = rw p.not_git b.revision;
  dirty = rw p.not_git b.dirty;
  raw = rw p.not_file b.raw;
  document = rw p.not_document b.document;
  executable = b.executable;
  state = rw p.not_git b.state;
}

pub unless_blocked-Backed :
    (ids : List CheckId) (i : CheckId) (m : Step)
    → same_id i CheckId.repository_git ≡ false
    → KeepsBacked m
    → KeepsBacked (unless_blocked ids i m)
unless_blocked-Backed ids i m other f c k d h b = elim (unless_blocked-cases ids i m c h) [
  | inl stuck ↦ rw stuck (IsBacked-unavailable i c other b)
  | inr clear ↦ f c k d clear b
]
