-- ===== src/Workflow/Scan.antt =====
-- scripts/validate_workflow.py: the tables that a loop over the tasks without errors leaves.
use mathlib.Core.List.{append-nil}
use yocto_qemu_edu_lab.Common.{
  String, str_eq, eq_iff, ◌≡◌, refl, sym, ap, subst, ◌∙◌, member, lookup, insert, lookup-insert,
  Bool, true, false, ◌&&◌, not, none, List, [], ◌∷◌, ◌++◌, map, all, and-true, Bool-cases, inl, inr,
  arith, append-cons,
}
use yocto_qemu_edu_lab.Json.{Json, obj, Fields}
use yocto_qemu_edu_lab.Workflow.Policy.{Error, distinct, valid_id, invalid_id, duplicate_id}
use yocto_qemu_edu_lab.Workflow.Tasks.{
  need, need_each, id_of, status_of, dependencies_of, own_errors, task_errors, Seen, see, scan,
}
use yocto_qemu_edu_lab.Workflow.Models.{no_errors}
use yocto_qemu_edu_lab.Workflow.Spec.{active_of, is_fine}

pub no_errors-append : (xs ys : List Error) → no_errors (xs ++ ys) ≡ (no_errors xs && no_errors ys)
no_errors-append [] ys = refl
no_errors-append (x ∷ xs) ys = refl

pub no_errors-need : (b : Bool) (e : Error) → no_errors (need b e) ≡ b
no_errors-need true e = refl
no_errors-need false e = refl

pub no_errors-need_each :
    (test : String → Bool) (error : String → Error) (ts : List String)
    → no_errors (need_each test error ts) ≡ all test ts
no_errors-need_each test error [] = refl
no_errors-need_each test error (t ∷ ts) =
    rw
      (
        no_errors-append (need (test t) (error t)) (need_each test error ts),
        no_errors-need (test t) (error t),
        no_errors-need_each test error ts,
      )
      refl

insert-new :
    {V : Type 0} (i : String) (v : V) (table : List (String × V))
    → lookup i table ≡ none
    → insert i v table ≡ table ++ (i, v) ∷ []
unfolding lookup insert
insert-new i v [] h = refl
insert-new i v ((j, w) ∷ table) h = ground (arith, insert-new i v table)

-- A table has no key that has not been seen.
abbrev Within : {V : Type 0} → List (String × V) → List String → Type 0
Within table ids = (k : String) → member k ids ≡ false → lookup k table ≡ none

insert-Within :
    {V : Type 0} (i : String) (v : V) (table : List (String × V)) (ids : List String)
    → Within table ids
    → Within (insert i v table) (i ∷ ids)
insert-Within i v table ids w k h =
    ground (arith, lookup-insert i k v table, eq_iff i k, eq_iff k i, w k)

abbrev pub rows : List Fields → List (String × Fields)
rows = map (λ t. (id_of t, t))

abbrev pub dependency_rows : List Fields → List (String × List String)
dependency_rows = map (λ t. (id_of t, dependencies_of t))

abbrev pub fresh : List String → Fields → Bool
fresh ids task = not (member (id_of task) ids)

-- What a loop without errors has read and left.
pub record Scanned (tasks : List Json) (s : Seen) (left : Seen) : Type 0 where
  pub tables : List Fields
  pub made : tasks ≡ map obj tables
  pub fine : all is_fine tables ≡ true
  pub new : all (fresh s.ids) tables ≡ true
  pub separate : distinct (map id_of tables) ≡ true
  pub by_id : left.by_id ≡ s.by_id ++ rows tables
  pub dependencies : left.dependencies ≡ s.dependencies ++ dependency_rows tables
  pub active : left.active ≡ s.active ++ active_of tables
  pub listed :
      (p : String → Bool)
      → all p left.ids ≡ true
      → (all p s.ids ≡ true) × (all p (map id_of tables) ≡ true)

fresh-split :
    (i : String) (ids : List String) (tables : List Fields)
    → all (fresh (i ∷ ids)) tables ≡ true
    → (all (fresh ids) tables ≡ true) × (member i (map id_of tables) ≡ false)
fresh-split i ids [] h = (refl, refl)
fresh-split i ids (t ∷ ts) h =
    ground (arith, fresh-split i ids ts, eq_iff i (id_of t), eq_iff (id_of t) i)

see-listed :
    (task : Fields) (s : Seen) (p : String → Bool)
    → member (id_of task) s.ids ≡ false
    → all p (see task s).ids ≡ true
    → (p (id_of task) ≡ true) × (all p s.ids ≡ true)
see-listed task s p new h = ground arith

task_errors-none :
    (task : Fields) (ids : List String)
    → no_errors (task_errors task ids) ≡ true
    → (is_fine task ≡ true) × (member (id_of task) ids ≡ false)
task_errors-none task ids h =
    let parts =
      no_errors-append (need (valid_id (id_of task)) (invalid_id (id_of task)))
        (need (not (member (id_of task) ids)) (duplicate_id (id_of task)) ++ own_errors task) in
    let later =
      no_errors-append (need (not (member (id_of task) ids)) (duplicate_id (id_of task)))
        (own_errors task) in
    ground (
      arith,
      parts,
      later,
      no_errors-need (valid_id (id_of task)) (invalid_id (id_of task)),
      no_errors-need (not (member (id_of task) ids)) (duplicate_id (id_of task)),
    )

pub see-ids :
    (task : Fields) (s : Seen)
    → member (id_of task) s.ids ≡ false
    → (see task s).ids ≡ id_of task ∷ s.ids
see-ids task s new = rw new refl

see-active :
    (task : Fields) (s : Seen) (tables : List Fields)
    → (see task s).active ++ active_of tables ≡ s.active ++ active_of (task ∷ tables)
see-active task s tables = elim (Bool-cases (str_eq (status_of task) "In Progress")) [
  | inl running ↦ rw running (
      sym (
        append-cons s.active (active_of tables)
          (record { id = id_of task; status = status_of task })))
  | inr idle ↦ rw idle refl
]

scan-cons :
    (task : Fields) {tasks : List Json} (s : Seen) {left : Seen}
    → Within s.by_id s.ids
    → Within s.dependencies s.ids
    → is_fine task ≡ true
    → member (id_of task) s.ids ≡ false
    → Scanned tasks (see task s) left
    → Scanned (obj task ∷ tasks) s left
scan-cons task s {left} wt wd good new r =
    let (others, apart) =
      fresh-split (id_of task) s.ids r.tables
        (subst (λ ids. all (fresh ids) r.tables ≡ true) (see-ids task s new) r.new) in
    record {
      tables = task ∷ r.tables;
      made = ap (λ js. obj task ∷ js) r.made;
      fine = rw good r.fine;
      new = rw new others;
      separate = rw apart r.separate;
      by_id =
          r.by_id
          ∙ ap (λ m. m ++ rows r.tables)
              (insert-new (id_of task) task s.by_id (wt (id_of task) new))
          ∙ sym (append-cons s.by_id (rows r.tables) (id_of task, task));
      dependencies =
          r.dependencies
          ∙ ap (λ m. m ++ dependency_rows r.tables)
              (insert-new (id_of task) (dependencies_of task) s.dependencies (wd (id_of task) new))
          ∙ sym (
              append-cons s.dependencies (dependency_rows r.tables)
                (id_of task, dependencies_of task));
      active = r.active ∙ see-active task s r.tables;
      listed = λ p h.
          let (old, later) = r.listed p h in
          let (first, before) = see-listed task s p new old in (before, rw first later);
    }

see-Within :
    {V : Type 0} (task : Fields) (v : V) (table : List (String × V)) (s : Seen)
    → member (id_of task) s.ids ≡ false
    → Within table s.ids
    → Within (insert (id_of task) v table) (see task s).ids
see-Within task v table s new w k h =
    insert-Within (id_of task) v table s.ids w k
      (subst (λ ids. member k ids ≡ false) (see-ids task s new) h)

pub scan-Scanned :
    (tasks : List Json) (s : Seen)
    → Within s.by_id s.ids
    → Within s.dependencies s.ids
    → no_errors (scan tasks s).0 ≡ true
    → Scanned tasks s (scan tasks s).1
unfolding scan
scan-Scanned [] s wt wd h = record {
  tables = [];
  made = refl;
  fine = refl;
  new = refl;
  separate = refl;
  by_id = simp append-nil;
  dependencies = simp append-nil;
  active = simp append-nil;
  listed = λ p h. (h, refl);
}
scan-Scanned (obj task ∷ tasks) s wt wd h =
    let split = no_errors-append (task_errors task s.ids) (scan tasks (see task s)).0 in
    let (here, there) = and-true _ _ (sym split ∙ h) in
    let (good, new) = task_errors-none task s.ids here in
    scan-cons task s wt wd good new (
      scan-Scanned tasks (see task s) (see-Within task task s.by_id s new wt)
        (see-Within task (dependencies_of task) s.dependencies s new wd) there)
scan-Scanned _ s wt wd h = cc
