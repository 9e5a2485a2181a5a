-- ===== src/Diagnostics/Steps/Order.antt =====
-- The checks are made in an order in which no check follows one that depends on it, so each method
-- has only its own entry of the tables of `validate_state_transitions` to meet.
use yocto_qemu_edu_lab.Common.{
  ℕ, suc, ◌≤◌, ◌<◌, ◌≡◌, refl, subst, dec_lt, sym, ap, ◌∙◌, Bool, true, false, List, [], ◌∷◌, all,
  any, Option, none, some, arith, ltb, Bool-cases, inl, inr, ok, ==_iff, if◌then◌else◌,
}
use yocto_qemu_edu_lab.Diagnostics.Checks.{CheckId, rank, same_id, Status, is_unavailable, Check}
use yocto_qemu_edu_lab.Diagnostics.Context.{Context, Step, Statuses, set_status, is_open}
use yocto_qemu_edu_lab.Diagnostics.Transitions.{
  is_bad, is_passed, upstreams, derived_upstreams, allowed, dependency_ok, derived_ok, if_present,
  dependency_holds, derived_holds, git_holds,
}
use yocto_qemu_edu_lab.Diagnostics.Steps.Records.{AlwaysRecords}
use yocto_qemu_edu_lab.Diagnostics.Steps.Held.{IsBacked, KeepsBacked, backed}

pub rank-injective : (i j : CheckId) → same_id i j ≡ true → i ≡ j
rank-injective i j h = ground arith

upstreams-below : (j : CheckId) → all (λ u. ltb (rank u) (rank j)) (upstreams j) ≡ true
upstreams-below CheckId.project_version = refl
upstreams-below _ = refl

derived_upstreams-below :
    (j : CheckId) → all (λ u. ltb (rank u) (rank j)) (derived_upstreams j) ≡ true
derived_upstreams-below CheckId.project_version = refl
derived_upstreams-below _ = refl

set_status_ne :
    (m : Statuses) (i : CheckId) (s : Status) (j : CheckId)
    → same_id i j ≡ false
    → set_status m i s j ≡ m j
set_status_ne m i s j h = rw h

set_status_self : (m : Statuses) (i : CheckId) (s : Status) → set_status m i s i ≡ some s
set_status_self m i s = rw ((==_iff (rank i) (rank i)).1 refl)

-- A record of a later check changes no upstream status.
module _ (f : Option Status → Bool) (m : Statuses) (i : CheckId) (s : Status) where
  any-set_status :
      (us : List CheckId) (n : ℕ)
      → all (λ u. ltb (rank u) n) us ≡ true
      → n ≤ rank i
      → any (λ u. f (set_status m i s u)) us ≡ any (λ u. f (m u)) us
  any-set_status [] n h le = refl
  any-set_status (u ∷ us) n h le =
      let other : same_id i u ≡ false = ground arith in
      rw (other, any-set_status us n (ground arith) le) refl

  all-set_status :
      (us : List CheckId) (n : ℕ)
      → all (λ u. ltb (rank u) n) us ≡ true
      → n ≤ rank i
      → all (λ u. f (set_status m i s u)) us ≡ all (λ u. f (m u)) us
  all-set_status [] n h le = refl
  all-set_status (u ∷ us) n h le =
      let other : same_id i u ≡ false = ground arith in
      rw (other, all-set_status us n (ground arith) le) refl

if_present-eq :
    (f g : Status → Bool) (o : Option Status)
    → ((t : Status) → f t ≡ g t)
    → if_present f o ≡ true
    → if_present g o ≡ true
if_present-eq f g none e h = refl
if_present-eq f g (some t) e h = sym (e t) ∙ h

-- What a method owes for the status that it records.
pub record Owes (m : Statuses) (i : CheckId) (s : Status) : Type 0 where
  pub dependency : dependency_ok m (upstreams i) s ≡ true
  pub derived : derived_ok m (derived_upstreams i) (allowed i) s ≡ true
  pub tool :
      same_id i CheckId.tool_git ≡ true → git_holds (m CheckId.repository_git) (some s) ≡ true
  pub file :
      same_id i CheckId.evidence_file ≡ true
      → backed (some s) (is_open (m CheckId.lab_selection)) ≡ true

-- Only checks of a rank below `n` are recorded, and the tables hold for them.
pub record Ordered (n : ℕ) (m : Statuses) : Type 0 where
  pub absent : (j : CheckId) → n ≤ rank j → m j ≡ none
  pub dependencies : (j : CheckId) → dependency_holds m j ≡ true
  pub derived : (j : CheckId) → derived_holds m j ≡ true
  pub tool : git_holds (m CheckId.repository_git) (m CheckId.tool_git) ≡ true
  pub file : backed (m CheckId.evidence_file) (is_open (m CheckId.lab_selection)) ≡ true

module _ (n : ℕ) (m : Statuses) (i : CheckId) (s : Status) (at : n ≤ rank i) (o : Ordered n m)
    (w : Owes m i s) where
  absent-set : (j : CheckId) → suc (rank i) ≤ rank j → set_status m i s j ≡ none
  absent-set j h =
      let other : same_id i j ≡ false = ground arith in rw other (o.absent j (omega arith))

  dependencies-set_self : dependency_holds (set_status m i s) i ≡ true
  dependencies-set_self = rw ((==_iff (rank i) (rank i)).1 refl) (
      rw (any-set_status is_bad m i s (upstreams i) (rank i) (upstreams-below i) (omega arith))
        w.dependency)

  derived-set_self : derived_holds (set_status m i s) i ≡ true
  derived-set_self = rw ((==_iff (rank i) (rank i)).1 refl) (
      rw
        (all-set_status is_passed m i s (derived_upstreams i) (rank i) (derived_upstreams-below i)
          (omega arith))
        w.derived)

  dependencies-set_before :
      (j : CheckId) → rank j < n → dependency_holds (set_status m i s) j ≡ true
  dependencies-set_before j h =
      let other : same_id i j ≡ false = ground arith in
      rw other (
        if_present-eq _ _ (m j)
          (λ t.
            ap (λ b. if b then is_unavailable t else true)
              (sym (
                any-set_status is_bad m i s (upstreams j) (rank j) (upstreams-below j)
                  (omega arith))))
          (o.dependencies j))

  derived-set_before : (j : CheckId) → rank j < n → derived_holds (set_status m i s) j ≡ true
  derived-set_before j h =
      let other : same_id i j ≡ false = ground arith in
      rw other (
        if_present-eq _ _ (m j)
          (λ t.
            ap (λ b. if b then allowed j t else true)
              (sym (
                all-set_status is_passed m i s (derived_upstreams j) (rank j)
                  (derived_upstreams-below j) (omega arith))))
          (o.derived j))

  dependencies-set_after :
      (j : CheckId)
      → same_id i j ≡ false
      → n ≤ rank j
      → dependency_holds (set_status m i s) j ≡ true
  dependencies-set_after j other h = rw (other, o.absent j h) refl

  derived-set_after :
      (j : CheckId) → same_id i j ≡ false → n ≤ rank j → derived_holds (set_status m i s) j ≡ true
  derived-set_after j other h = rw (other, o.absent j h) refl

  dependencies-set : (j : CheckId) → dependency_holds (set_status m i s) j ≡ true
  dependencies-set j = elim (Bool-cases (same_id i j)) [
    | inl same ↦
        subst (λ x. dependency_holds (set_status m i s) x ≡ true) (rank-injective i j same)
          dependencies-set_self
    | inr other ↦ elim (dec_lt (rank j) n) [
      | yes h ↦ dependencies-set_before j h
      | no h ↦ dependencies-set_after j other (omega arith)
    ]
  ]

  derived-set : (j : CheckId) → derived_holds (set_status m i s) j ≡ true
  derived-set j = elim (Bool-cases (same_id i j)) [
    | inl same ↦
        subst (λ x. derived_holds (set_status m i s) x ≡ true) (rank-injective i j same)
          derived-set_self
    | inr other ↦ elim (dec_lt (rank j) n) [
      | yes h ↦ derived-set_before j h
      | no h ↦ derived-set_after j other (omega arith)
    ]
  ]

  tool-set :
      git_holds (set_status m i s CheckId.repository_git) (set_status m i s CheckId.tool_git) ≡ true
  tool-set = ground (arith, o.absent CheckId.tool_git, w.tool, o.tool)

  file-set :
      backed
        (set_status m i s CheckId.evidence_file)
        (is_open (set_status m i s CheckId.lab_selection))
      ≡ true
  file-set = ground (arith, o.absent CheckId.evidence_file, w.file, o.file)

  pub Ordered-set : Ordered (suc (rank i)) (set_status m i s)
  Ordered-set = record {
    absent = absent-set;
    dependencies = dependencies-set;
    derived = derived-set;
    tool = tool-set;
    file = file-set;
  }

-- The steps of a command, in the order of their checks.
pub record IsStep (i : CheckId) (step : Step) : Type 0 where
  pub records : AlwaysRecords i step
  pub keeps : KeepsBacked step
  pub owes :
      (c : Context) (k : Check) (d : Context)
      → step c ≡ ok (k, d)
      → IsBacked c
      → Ordered (rank i) c.statuses
      → Owes c.statuses i k.status

-- The steps make the checks of the list, each of a rank at least `n` and above the one before.
pub data Chain : ℕ → List Step → List CheckId → Type 0 where
  finish : {n : ℕ} → Chain n [] []
  follow :
      {n : ℕ} {m : Step} {ms : List Step} {is : List CheckId} (i : CheckId)
      → n ≤ rank i
      → IsStep i m
      → Chain (suc (rank i)) ms is
      → Chain n (m ∷ ms) (i ∷ is)

Ordered-mono : (n p : ℕ) (m : Statuses) → n ≤ p → Ordered n m → Ordered p m
Ordered-mono n p m le o = record {
  absent = λ j h. o.absent j (omega arith);
  dependencies = o.dependencies;
  derived = o.derived;
  tool = o.tool;
  file = o.file;
}

pub step-Ordered :
    (n : ℕ) (i : CheckId) (m : Step)
    → n ≤ rank i
    → IsStep i m
    → (c : Context) (k : Check) (d : Context) → m c ≡ ok (k, d)
    → IsBacked c
    → Ordered n c.statuses
    → Ordered (suc (rank i)) d.statuses
step-Ordered n i m le st c k d h b o = rw (st.records c k d h).statuses (
    Ordered-set n c.statuses i k.status le o
      (st.owes c k d h b (Ordered-mono n (rank i) c.statuses le o)))
