-- ===== src/Workflow/Fine.antt =====
-- scripts/validate_workflow.py: the loops of `validate_models` over sound tasks.
use yocto_qemu_edu_lab.Common.{
  String, str_eq, eq_iff, ◌≡◌, refl, sym, ap, subst, ◌∙◌, member, lookup, Bool, true, false, ◌&&◌,
  ◌||◌, not, Option, none, some, List, [], ◌∷◌, ◌++◌, map, if◌then◌else◌, all, All, and-true,
  Bool-cases, inl, inr, arith, ok, ◌>>=◌,
}
use yocto_qemu_edu_lab.Json.{Json, null, bool, int, float, str, arr, obj, Fields, get}
use yocto_qemu_edu_lab.Workflow.Policy.{
  Error, text_or_empty, distinct, is_executable, early, valid_id, expected_statuses, invalid_status,
}
use yocto_qemu_edu_lab.Workflow.Tasks.{
  need, or_empty, id_of, status_of, dependencies_of, own_errors, Seen, see, scan, task_errors,
}
use yocto_qemu_edu_lab.Workflow.Models.{
  no_errors, is_known, is_done, executable, known_errors, early_errors, relation_errors,
  dependency_errors,
}
use yocto_qemu_edu_lab.Workflow.Spec.{is_fine, dependencies_fine}
use yocto_qemu_edu_lab.Workflow.Scan.{
  no_errors-append, no_errors-need, no_errors-need_each, rows, fresh, see-ids,
}
use yocto_qemu_edu_lab.Workflow.Related.{Owns, no_errors-known, same-depend, all-cong}

pub append-none :
    (xs ys : List Error) → no_errors xs ≡ true → no_errors ys ≡ true → no_errors (xs ++ ys) ≡ true
append-none xs ys h k = no_errors-append xs ys ∙ rw (h, k) refl

pub no_errors-nil : (xs : List Error) → no_errors xs ≡ true → xs ≡ []
no_errors-nil [] h = refl
no_errors-nil (x ∷ xs) h = cc

fresh-join :
    (i : String) (ids : List String) (tasks : List Fields)
    → all (fresh ids) tasks ≡ true
    → member i (map id_of tasks) ≡ false
    → all (fresh (i ∷ ids)) tasks ≡ true
fresh-join i ids [] h k = refl
fresh-join i ids (t ∷ ts) h k =
    ground (arith, fresh-join i ids ts, eq_iff i (id_of t), eq_iff (id_of t) i)

task_errors-fine :
    (task : Fields) (ids : List String)
    → is_fine task ≡ true
    → member (id_of task) ids ≡ false
    → no_errors (task_errors task ids) ≡ true
task_errors-fine task ids fine new =
    let (valid, own) = and-true _ _ fine in
    append-none _ (own_errors task)
      (append-none (need (valid_id (id_of task)) _) (need (not (member (id_of task) ids)) _)
        (no_errors-need _ _ ∙ valid) (no_errors-need _ _ ∙ rw new refl))
      own

pub scan-none :
    (tasks : List Fields) (s : Seen)
    → all is_fine tasks ≡ true
    → all (fresh s.ids) tasks ≡ true
    → distinct (map id_of tasks) ≡ true
    → no_errors (scan (map obj tasks) s).0 ≡ true
unfolding scan
scan-none [] s fine new apart = refl
scan-none (t ∷ ts) s fine new apart =
    let (here, later) = and-true _ _ fine in
    let (first, others) = and-true _ _ new in
    let (alone, separate) = and-true _ _ apart in
    let is_new : member (id_of t) s.ids ≡ false = ground arith in
    append-none (task_errors t s.ids) (scan (map obj ts) (see t s)).0
      (task_errors-fine t s.ids here is_new)
      (scan-none ts (see t s) later
        (subst (λ ids. all (fresh ids) ts ≡ true) (sym (see-ids t s is_new))
          (fresh-join (id_of t) s.ids ts others (ground arith)))
        separate)

executable-known :
    (status : Option Json)
    → member (text_or_empty status) expected_statuses ≡ true
    → executable status ≡ ok (is_executable (text_or_empty status))
executable-known none h = refl
executable-known (some (str s)) h = refl
executable-known (some (arr vs)) h = cc
executable-known (some (obj fs)) h = cc
executable-known (some null) h = refl
executable-known (some (bool c)) h = refl
executable-known (some (int n)) h = refl
executable-known (some (float s)) h = refl

own_errors-status :
    (task : Fields)
    → no_errors (own_errors task) ≡ true
    → member (status_of task) expected_statuses ≡ true
unfolding own_errors
own_errors-status task h =
    let i = id_of task in
    let (a, _) = and-true _ _ (sym (no_errors-append _ _) ∙ h) in
    let (b, _) = and-true _ _ (sym (no_errors-append _ _) ∙ a) in
    let (c, _) = and-true _ _ (sym (no_errors-append _ _) ∙ b) in
    let (d, _) = and-true _ _ (sym (no_errors-append _ _) ∙ c) in
    sym (
      no_errors-need (member (status_of task) expected_statuses)
        (invalid_status i (status_of task)))
    ∙ d

all-left :
    (p q : String → Bool) (ts : List String) → all (λ t. p t && q t) ts ≡ true → all p ts ≡ true
all-left p q [] h = refl
all-left p q (t ∷ ts) h = ground (arith, all-left p q ts)

all-right :
    (b : Bool) (p q : String → Bool) (ts : List String)
    → all (λ t. p t && (not b || q t)) ts ≡ true
    → b ≡ true
    → all q ts ≡ true
all-right b p q [] h e = refl
all-right b p q (t ∷ ts) h e = ground (arith, all-right b p q ts)

-- the errors that one task adds between its dependencies are none
relation-none :
    (tasks : List Fields) (task : Fields)
    → is_fine task ≡ true
    → dependencies_fine tasks task ≡ true
    → (es : List Error) × (relation_errors (id_of task) task (rows tasks) (dependencies_of task)
        ≡ ok es)
      × (no_errors es ≡ true)
relation-none tasks task fine good =
    let i = id_of task in
    let table = rows tasks in
    let b = is_executable (status_of task) in
    let known = known_errors i table (dependencies_of task) in
    let late = early_errors i table (dependencies_of task) in
    let (valid, own) = and-true _ _ fine in
    let runs = executable-known (get "status" task) (own_errors-status task own) in
    let test = λ (d : String). not (str_eq d i) && is_known (lookup d table) in
    let ready = λ (d : String). is_done (lookup d table) in
    let both : all (λ d. test d && (not b || ready d)) (dependencies_of task) ≡ true =
      sym (all-cong _ _ (dependencies_of task) (λ d. same-depend tasks task d refl)) ∙ good in
    let first : no_errors known ≡ true =
      no_errors-known i table (dependencies_of task)
      ∙ all-left test (λ d. not b || ready d) (dependencies_of task) both in
    let second : no_errors (if b then late else []) ≡ true = elim (Bool-cases b) [
      | inl runnable ↦ rw runnable (
          no_errors-need_each ready (early i) (dependencies_of task)
          ∙ all-right b test ready (dependencies_of task) both runnable)
      | inr idle ↦ rw idle refl
    ] in
    (
      known ++ (if b then late else []),
      ap (λ r. r >>= λ c. ok (known ++ (if c then late else []))) runs,
      append-none known (if b then late else []) first second,
    )

pub relations-none :
    (tasks others : List Fields) (s : Seen)
    → s.by_id ≡ rows tasks
    → All (Owns dependencies_of s.dependencies) others
    → all is_fine others ≡ true
    → all (dependencies_fine tasks) others ≡ true
    → (es : List Error) × (dependency_errors (rows others) s ≡ ok es) × (no_errors es ≡ true)
unfolding dependency_errors
relations-none tasks [] s t o f g = ([], refl, refl)
relations-none tasks (task ∷ others) s t (o, os) f g =
    let (f0, fs) = and-true _ _ f in
    let (g0, gs) = and-true _ _ g in
    let (es, made, clean) = relation-none tasks task f0 g0 in
    let (rest, made', clean') = relations-none tasks others s t os fs gs in
    (es ++ rest, rw (made', t, ap or_empty o, made) refl, append-none es rest clean clean')
