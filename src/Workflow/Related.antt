-- ===== src/Workflow/Related.antt =====
-- scripts/validate_workflow.py: the loop over the dependencies without errors, and the tasks that
-- the tables hold.
use text.Mathlib.TextPositions.{eq_refl}
use yocto_qemu_edu_lab.Common.{
  String, str_eq, ◌≡◌, refl, sym, ap, subst, ◌∙◌, member, lookup, Bool, true, false, ◌&&◌, ◌||◌,
  not, Option, none, some, List, [], ◌∷◌, ◌++◌, map, if◌then◌else◌, all, All, and-true, Bool-cases,
  inl, inr, arith, Result, ok, err, >>=-eq-ok,
}
use yocto_qemu_edu_lab.Json.{Json, null, bool, int, float, str, arr, obj, Fields, get}
use yocto_qemu_edu_lab.Workflow.Policy.{
  Error, text_or_empty, distinct, is_executable, unknown_dependency, early,
}
use yocto_qemu_edu_lab.Workflow.Tasks.{need, or_empty, id_of, status_of, dependencies_of, Seen}
use yocto_qemu_edu_lab.Workflow.Models.{
  Raised, no_errors, is_known, is_done, executable, known_errors, early_errors, relation_errors,
  dependency_errors, find_dependencies,
}
use yocto_qemu_edu_lab.Workflow.Spec.{find, may_depend, dependencies_fine}
use yocto_qemu_edu_lab.Workflow.Scan.{no_errors-append, no_errors-need, no_errors-need_each, rows}

pub lookup-rows : (i : String) (tasks : List Fields) → lookup i (rows tasks) ≡ find i tasks
unfolding lookup
lookup-rows i [] = refl
lookup-rows i (t ∷ ts) = rw (lookup-rows i ts) refl

-- A table gives each task its own value.
abbrev pub Owns {ℓ} : {V : Type ℓ} → (Fields → V) → List (String × V) → Fields → Type ℓ
Owns f table task = lookup (id_of task) table ≡ some (f task)

abbrev pub rows_by {ℓ} : {V : Type ℓ} → (Fields → V) → List Fields → List (String × V)
rows_by f = map (λ t. (id_of t, f t))

module _ {ℓ} {V : Type ℓ} (f : Fields → V) where
  skip :
      (t : Fields) (table : List (String × V)) (tasks : List Fields)
      → member (id_of t) (map id_of tasks) ≡ false
      → All (Owns f table) tasks
      → All (Owns f ((id_of t, f t) ∷ table)) tasks
  unfolding lookup
  skip t table [] new o = o
  skip t table (u ∷ us) new (o, os) = (ground (arith, o), skip t table us (ground arith) os)

  pub rows-Owns :
      (tasks : List Fields)
      → distinct (map id_of tasks) ≡ true
      → All (Owns f (rows_by f tasks)) tasks
  unfolding lookup
  rows-Owns [] d = tt
  rows-Owns (t ∷ ts) d =
      let (new, later) = and-true _ _ d in
      (
        ground (arith, eq_refl (id_of t)),
        skip t (rows_by f ts) ts (ground arith) (rows-Owns ts later),
      )

executable-text :
    (status : Option Json) {b : Bool}
    → executable status ≡ ok b
    → b ≡ is_executable (text_or_empty status)
executable-text none h = cc
executable-text (some (str s)) h = cc
executable-text (some (arr vs)) h = cc
executable-text (some (obj fs)) h = cc
executable-text (some null) h = cc
executable-text (some (bool c)) h = cc
executable-text (some (int n)) h = cc
executable-text (some (float s)) h = cc

all-and :
    (p q : String → Bool) (ts : List String)
    → all p ts ≡ true
    → all q ts ≡ true
    → all (λ t. p t && q t) ts ≡ true
all-and p q [] h k = refl
all-and p q (t ∷ ts) h k = ground (arith, all-and p q ts)

pub no_errors-known :
    (i : String) (table : List (String × Fields)) (ds : List String)
    → no_errors (known_errors i table ds)
      ≡ all (λ d. not (str_eq d i) && is_known (lookup d table)) ds
no_errors-known i table [] = refl
no_errors-known i table (d ∷ ds) = elim (Bool-cases (str_eq d i)) [
  | inl same ↦ rw same refl
  | inr other ↦
      rw
        (
          other,
          no_errors-append (need (is_known (lookup d table)) (unknown_dependency i d))
              (known_errors i table ds),
          no_errors-need (is_known (lookup d table)) (unknown_dependency i d),
          no_errors-known i table ds,
        )
        refl
]

abbrev all_ok : Result Raised (List Error) → Bool
all_ok (ok es) = no_errors es
all_ok (err e) = false

pub all-cong :
    (p q : String → Bool) (ts : List String) → ((t : String) → p t ≡ q t) → all p ts ≡ all q ts
all-cong p q [] h = refl
all-cong p q (t ∷ ts) h = rw (h t, all-cong p q ts h) refl

-- what the tables say of one dependency is what the tasks say
pub same-depend :
    (tasks : List Fields) (task : Fields) {b : Bool} (d : String)
    → b ≡ is_executable (status_of task)
    → may_depend tasks task d ≡ (
        (not (str_eq d (id_of task)) && is_known (lookup d (rows tasks)))
        && (not b || is_done (lookup d (rows tasks))))
same-depend tasks task d h = rw (lookup-rows d tasks, h) (ground arith)

either :
    (b c : Bool) (es : List Error)
    → no_errors (if b then es else []) ≡ true
    → no_errors es ≡ c
    → (not b || c) ≡ true
either b c es h k = ground arith

all-or :
    (b : Bool) (q : String → Bool) (ts : List String)
    → (not b || all q ts) ≡ true
    → all (λ t. not b || q t) ts ≡ true
all-or b q [] h = refl
all-or b q (t ∷ ts) h = ground (arith, all-or b q ts)

-- the dependencies of one task
relation-fine :
    (tasks : List Fields) (task : Fields) {es : List Error}
    → relation_errors (id_of task) task (rows tasks) (dependencies_of task) ≡ ok es
    → no_errors es ≡ true
    → dependencies_fine tasks task ≡ true
relation-fine tasks task {es} h clean =
    let (b, is_b, made) = >>=-eq-ok (executable (get "status" task)) _ h in
    let table = rows tasks in
    let known = known_errors (id_of task) table (dependencies_of task) in
    let late = early_errors (id_of task) table (dependencies_of task) in
    let whole : no_errors (known ++ (if b then late else [])) ≡ true =
      subst (λ r. all_ok r ≡ true) (sym made) clean in
    let (k, l) = and-true _ _ (sym (no_errors-append known (if b then late else [])) ∙ whole) in
    let one = sym (no_errors-known (id_of task) table (dependencies_of task)) ∙ k in
    let two = all-or b _ (dependencies_of task) (
      either b _ late l (
        no_errors-need_each (λ d. is_done (lookup d table)) (early (id_of task))
          (dependencies_of task))) in
    let both = all-and _ _ (dependencies_of task) one two in
    all-cong _ _ (dependencies_of task)
      (λ d. same-depend tasks task d (executable-text (get "status" task) is_b))
    ∙ both

pub relations-fine :
    (tasks others : List Fields) (s : Seen) {es : List Error}
    → s.by_id ≡ rows tasks
    → All (Owns dependencies_of s.dependencies) others
    → dependency_errors (rows others) s ≡ ok es
    → no_errors es ≡ true
    → all (dependencies_fine tasks) others ≡ true
unfolding dependency_errors
relations-fine tasks [] s {es} t o h clean = refl
relations-fine tasks (task ∷ others) s {es} t (o, os) h clean =
    let (first, one, h') =
      >>=-eq-ok
        (relation_errors (id_of task) task s.by_id (find_dependencies (id_of task) s.dependencies))
        _ h in
    let (later, rest, made) = >>=-eq-ok (dependency_errors (rows others) s) _ h' in
    let whole : no_errors (first ++ later) ≡ true = subst (λ r. all_ok r ≡ true) (sym made) clean in
    let (c, cs) = and-true _ _ (sym (no_errors-append first later) ∙ whole) in
    let here =
      relation-fine tasks task
        (subst (λ ds. relation_errors (id_of task) task (rows tasks) ds ≡ ok first) (ap or_empty o)
          (subst
            (λ m.
              relation_errors (id_of task) task m (find_dependencies (id_of task) s.dependencies)
              ≡ ok first)
            t one))
        c in
    rw (here, relations-fine tasks others s t os rest cs) refl
