-- ===== src/RuntimeEvidence/RunOrder.antt =====
-- scripts/runtime_evidence.py: the order of the runs, and the last of them.
use yocto_qemu_edu_lab.Common.{
  String, str_eq, eq_iff, ◌≡◌, refl, sym, ap, subst, ◌∙◌, ◌⊎◌, inl, inr, true, false, List, [], ◌∷◌,
  if◌then◌else◌, text_le, text_le_total, text_le_trans, text_le_antisym, Bool-cases,
}
use yocto_qemu_edu_lab.RuntimeEvidence.Select.{Run, run_le, latest}

-- the two ways in which a run is at most another
abbrev Ordered : Run → Run → Type 0
Ordered a b =
    ((a.started_at ≡ b.started_at) × (text_le (a.result_id) (b.result_id) ≡ true))
    ⊎ ((str_eq (a.started_at) (b.started_at) ≡ false)
        × (text_le (a.started_at) (b.started_at) ≡ true))

run_le-Ordered : (a b : Run) → run_le a b ≡ true → Ordered a b
unfolding run_le
run_le-Ordered a b h = elim (Bool-cases (str_eq (a.started_at) (b.started_at))) [
  | inl same ↦ inl ((eq_iff _ _).0 same, rw same at h)
  | inr other ↦ inr (other, rw other at h)
]

Ordered-run_le : (a b : Run) → Ordered a b → run_le a b ≡ true
unfolding run_le
Ordered-run_le a b (inl (same, below)) = rw ((eq_iff (a.started_at) (b.started_at)).1 same) below
Ordered-run_le a b (inr (other, below)) = rw other below

not_same : (s t : String) → str_eq s t ≡ false → s ≡ t → ⊥
not_same s t other same = absurd cc (sym other ∙ (eq_iff s t).1 same)

differ_comm : (s t : String) → str_eq s t ≡ false → str_eq t s ≡ false
differ_comm s t other = elim (Bool-cases (str_eq t s)) [
  | inl same ↦ absurd (not_same s t other (sym ((eq_iff t s).0 same)))
  | inr differ ↦ differ
]

run_le_total : (a b : Run) → run_le a b ≡ false → run_le b a ≡ true
unfolding run_le
run_le_total a b h = elim (Bool-cases (str_eq (a.started_at) (b.started_at))) [
  | inl same ↦
      Ordered-run_le b a
        (inl (sym ((eq_iff _ _).0 same), text_le_total (a.result_id) (b.result_id) (rw same at h)))
  | inr other ↦ Ordered-run_le b a (
      inr (
        differ_comm (a.started_at) (b.started_at) other,
        text_le_total (a.started_at) (b.started_at) (rw other at h),
      ))
]

-- Two texts that differ and are ordered, and then two more: the first and the last differ.
differ_trans :
    (s t u : String)
    → str_eq s t ≡ false
    → text_le s t ≡ true
    → text_le t u ≡ true
    → str_eq s u ≡ false
differ_trans s t u other below above = elim (Bool-cases (str_eq s u)) [
  | inl same ↦ absurd (
      not_same s t other (
        text_le_antisym s t below
          (subst (λ v. text_le t v ≡ true) (sym ((eq_iff s u).0 same)) above)))
  | inr differ ↦ differ
]

Ordered-trans : (a b c : Run) → Ordered a b → Ordered b c → Ordered a c
Ordered-trans a b c (inl (p, h)) (inl (q, k)) =
    inl (p ∙ q, text_le_trans (a.result_id) (b.result_id) (c.result_id) h k)
Ordered-trans a b c (inl (p, h)) (inr (q, k)) = inr (
  subst (λ s. str_eq s (c.started_at) ≡ false) (sym p) q,
  subst (λ s. text_le s (c.started_at) ≡ true) (sym p) k,
)
Ordered-trans a b c (inr (p, h)) (inl (q, k)) = inr (
  subst (λ s. str_eq (a.started_at) s ≡ false) q p,
  subst (λ s. text_le (a.started_at) s ≡ true) q h,
)
Ordered-trans a b c (inr (p, h)) (inr (q, k)) = inr (
  differ_trans (a.started_at) (b.started_at) (c.started_at) p h k,
  text_le_trans (a.started_at) (b.started_at) (c.started_at) h k,
)

run_le_trans : (a b c : Run) → run_le a b ≡ true → run_le b c ≡ true → run_le a c ≡ true
run_le_trans a b c h k =
    Ordered-run_le a c (Ordered-trans a b c (run_le-Ordered a b h) (run_le-Ordered b c k))

-- one of the runs
abbrev pub IsOne : Run → List Run → Type 0
IsOne run [] = ⊥
IsOne run (other ∷ runs) = (run ≡ other) ⊎ IsOne run runs

run_le_refl : (a : Run) → run_le a a ≡ true
run_le_refl a = elim (Bool-cases (run_le a a)) [ inl le ↦ le | inr gt ↦ run_le_total a a gt ]

abbrev kept : Run → Run → Run
kept run other = if run_le other run then run else other

kept_le :
    (run other : Run)
    → (run_le run (kept run other) ≡ true) × (run_le other (kept run other) ≡ true)
kept_le run other = elim (Bool-cases (run_le other run)) [
  | inl le ↦ rw le (run_le_refl run, le)
  | inr gt ↦ rw gt (run_le_total other run gt, run_le_refl other)
]

kept_either : (run other : Run) → (kept run other ≡ run) ⊎ (kept run other ≡ other)
kept_either run other = elim (Bool-cases (run_le other run)) [
  | inl le ↦ inl (ap (λ b. if b then run else other) le)
  | inr gt ↦ inr (ap (λ b. if b then run else other) gt)
]

pub latest-first : (run : Run) (runs : List Run) → run_le run (latest run runs) ≡ true
latest-first run [] = run_le_refl run
latest-first run (other ∷ runs) =
    run_le_trans run (kept run other) (latest (kept run other) runs) ((kept_le run other).0)
      (latest-first (kept run other) runs)

pub latest-rest :
    (run : Run) (runs : List Run) (other : Run)
    → IsOne other runs
    → run_le other (latest run runs) ≡ true
latest-rest run [] other h = absurd h
latest-rest run (next ∷ runs) other (inl same) =
    run_le_trans other (kept run next) (latest (kept run next) runs)
      (subst (λ r. run_le r (kept run next) ≡ true) (sym same) ((kept_le run next).1))
      (latest-first (kept run next) runs)
latest-rest run (next ∷ runs) other (inr later) = latest-rest (kept run next) runs other later

pub latest-IsOne : (run : Run) (runs : List Run) → IsOne (latest run runs) (run ∷ runs)
latest-IsOne run [] = inl refl
latest-IsOne run (other ∷ runs) = elim (latest-IsOne (kept run other) runs) [
  | inl first ↦ elim (kept_either run other) [
    | inl one ↦ inl (first ∙ one)
    | inr two ↦ inr (inl (first ∙ two))
  ]
  | inr rest ↦ inr (inr rest)
]
