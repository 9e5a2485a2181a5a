-- ===== src/SourceLock/Ready.antt =====
-- scripts/source_lock.py: the checkouts that `inspect_source` calls ready.
use yocto_qemu_edu_lab.Common.{
  String, str_eq, strip, ◌≡◌, refl, ap, sym, ◌∙◌, ◌↔◌, Bool, true, false, not, some, List, [], ◌∷◌,
  ◌++◌, All, if◌then◌else◌, ok, >>=-eq-ok, ensure, ensure-true, result_or, Bool-cases, Option-cases,
  inl, inr, and-true,
}
use yocto_qemu_edu_lab.SourceLock.Git.{
  succeeded, View, InspectError, escapes, other_origin, other_format, other_head, no_head, is_dirty,
  Source, ask_format, ask_head, ask_branch, ask_status, git_output, origin_url, path_missing,
}
use yocto_qemu_edu_lab.SourceLock.Inspect.{
  CheckoutState, ready, Inspection, unless, is_value, state_of, head_errors, is_checkout,
  required_errors, format_is, early_errors, inspect_checkout, inspect_source, is_ready,
  preflight_existing, found_commit, found_detached,
}

-- Git knows the directory, its only origin is the one of the lock, it has the object format and
-- as a detached HEAD the commit of the lock, nothing in it is changed or new, and the required
-- paths are there.
pub record IsReady (v : View) (source : Source) : Type 0 where
  pub inside : v.inside ≡ true
  pub exists : v.exists ≡ true
  pub known : is_checkout v ≡ true
  pub origin : is_value (origin_url v) source.url ≡ true
  pub format : format_is v source ≡ true
  pub has_head : succeeded (v.query ask_head) ≡ true
  pub head : str_eq (strip (v.query ask_head).stdout) source.commit ≡ true
  pub detached : succeeded (v.query ask_branch) ≡ false
  pub status : succeeded (v.query ask_status) ≡ true
  pub clean : str_eq (strip (v.query ask_status).stdout) "" ≡ true
  pub required : All (λ path. v.has path ≡ some true) source.required_paths

append-nil_parts : (xs ys : List InspectError) → xs ++ ys ≡ [] → (xs ≡ []) × (ys ≡ [])
append-nil_parts [] ys h = (refl, h)
append-nil_parts (x ∷ xs) ys h = absurd cc

unless-nil : (b : Bool) (e : InspectError) → unless b e ≡ [] → b ≡ true
unless-nil true e h = refl
unless-nil false e h = cc

state_of-nil : (errors : List InspectError) → state_of errors ≡ ready → errors ≡ []
state_of-nil [] h = refl
state_of-nil (e ∷ errors) h = cc

is_ready-state : (r : Inspection) → is_ready r ≡ true → r.state ≡ ready
is_ready-state r h = by_state r.state h
  where
    by_state : (s : CheckoutState) → (elim s [ ready ↦ true | _ ↦ false ]) ≡ true → s ≡ ready
    by_state ready h = refl
    by_state _ h = cc

required_errors-nil :
    (v : View) (paths : List String) {errors : List InspectError}
    → required_errors v paths ≡ ok errors
    → errors ≡ []
    → All (λ path. v.has path ≡ some true) paths
required_errors-nil v [] h k = tt
required_errors-nil v (path ∷ paths) {errors} h k = elim (Option-cases (v.has path)) [
  | inl escaped ↦ absurd (cc (rw (escaped, required_errors) at h))
  | inr (there, found) ↦
      let (rest, later, h1) =
        >>=-eq-ok (required_errors v paths) (λ es. ok (unless there (path_missing path) ++ es))
          (rw (found, required_errors) at h) in
      let made : unless there (path_missing path) ++ rest ≡ [] = ap (result_or errors) h1 ∙ k in
      let (one, others) = append-nil_parts (unless there (path_missing path)) rest made in
      (found ∙ ap some (unless-nil there _ one), required_errors-nil v paths later others)
]

git_output-ok :
    (v : View) (arguments : List String) {text : String}
    → git_output v arguments ≡ ok text
    → (succeeded (v.query arguments) ≡ true) × (strip (v.query arguments).stdout ≡ text)
git_output-ok v arguments h = elim (Bool-cases (succeeded (v.query arguments))) [
  | inl fine ↦ (fine, cc (rw fine at h))
  | inr failed ↦ absurd (cc (rw failed at h))
]

by_head :
    (found same detached : Bool) (e e' e'' : InspectError)
    → (if found then unless same e ++ unless (not detached) e' else e'' ∷ []) ≡ []
    → (found ≡ true) × (same ≡ true) × (detached ≡ false)
by_head true true false e e' e'' h = (refl, refl, refl)
by_head true true true e e' e'' h = absurd cc
by_head true false detached e e' e'' h = absurd cc
by_head false same detached e e' e'' h = absurd cc

inspect_checkout-IsReady :
    (v : View) (source : Source) {r : Inspection}
    → v.inside ≡ true
    → v.exists ≡ true
    → is_checkout v ≡ true
    → inspect_checkout v source ≡ ok r
    → is_ready r ≡ true
    → IsReady v source
unfolding inspect_checkout
inspect_checkout-IsReady v source {r} inside exists known h is =
    let (dirty, status, h1) = >>=-eq-ok (git_output v ask_status) _ h in
    let (absent, required, h2) = >>=-eq-ok (required_errors v source.required_paths) _ h1 in
    let errors : List InspectError =
      early_errors v source ++ (unless (str_eq dirty "") is_dirty ++ absent) in
    let none_left : errors ≡ [] =
      state_of-nil errors (ap (λ i. i.state) (ap (result_or r) h2) ∙ is_ready-state r is) in
    let (early, late) =
      append-nil_parts (early_errors v source) (unless (str_eq dirty "") is_dirty ++ absent)
        none_left in
    let (no_change, present) = append-nil_parts (unless (str_eq dirty "") is_dirty) absent late in
    let (ours, more) =
      append-nil_parts (unless (is_value (origin_url v) source.url) other_origin)
        (unless (format_is v source) other_format
          ++ head_errors (v.query ask_head) (v.query ask_branch) source.commit)
        early in
    let (format, head) =
      append-nil_parts (unless (format_is v source) other_format)
        (head_errors (v.query ask_head) (v.query ask_branch) source.commit) more in
    let (found, same, detached) =
      by_head (succeeded (v.query ask_head))
        (str_eq (strip (v.query ask_head).stdout) source.commit) (succeeded (v.query ask_branch))
        other_head InspectError.not_detached no_head head in
    let (answered, text) = git_output-ok v ask_status status in
    record {
      inside = inside;
      exists = exists;
      known = known;
      origin = unless-nil _ _ ours;
      format = unless-nil _ _ format;
      has_head = found;
      head = same;
      detached = detached;
      status = answered;
      clean = ap (λ t. str_eq t "") text ∙ unless-nil _ _ no_change;
      required = required_errors-nil v source.required_paths required present;
    }

pub inspect_source-IsReady :
    (v : View) (source : Source) {r : Inspection}
    → inspect_source v source ≡ ok r
    → is_ready r ≡ true
    → IsReady v source
unfolding inspect_source
inspect_source-IsReady v source {r} h is =
    let (_, located, h1) = >>=-eq-ok (ensure v.inside escapes) _ h in
    let inside = ensure-true _ _ located in
    elim (Bool-cases v.exists) [
      | inr absent ↦
          absurd (cc (is_ready-state r is, ap (λ i. i.state) (ap (result_or r) (rw absent at h1))))
      | inl exists ↦ elim (Bool-cases (is_checkout v)) [
        | inr other ↦ absurd (
            cc (
              is_ready-state r is,
              ap (λ i. i.state) (ap (result_or r) (rw (exists, other) at h1)),
            ))
        | inl known ↦
            inspect_checkout-IsReady v source inside exists known (rw (exists, known) at h1) is
      ]
    ]

required_errors_complete :
    (v : View) (paths : List String)
    → All (λ path. v.has path ≡ some true) paths
    → required_errors v paths ≡ ok []
required_errors_complete v [] h = refl
required_errors_complete v (path ∷ paths) (there, rest) =
    rw (there, required_errors, required_errors_complete v paths rest) refl

-- What is read of a checkout that is ready.
abbrev pub ready_inspection : View → Source → Inspection
ready_inspection v source = record {
  actual_commit = found_commit (v.query ask_head);
  clean = some (str_eq (strip (v.query ask_status).stdout) "");
  detached = found_detached (v.query ask_head) (v.query ask_branch);
  origin = origin_url v;
  state = ready;
  errors = [];
}

early_errors-ready : (v : View) (source : Source) → IsReady v source → early_errors v source ≡ []
early_errors-ready v source k = rw (k.origin, k.format, k.has_head, k.head, k.detached) refl

pub git_output_complete :
    (v : View) (arguments : List String)
    → succeeded (v.query arguments) ≡ true
    → git_output v arguments ≡ ok (strip (v.query arguments).stdout)
git_output_complete v arguments h = rw h refl

inspect_checkout_complete :
    (v : View) (source : Source)
    → IsReady v source
    → inspect_checkout v source ≡ ok (ready_inspection v source)
unfolding inspect_checkout
inspect_checkout_complete v source k =
    rw
      (
        git_output_complete v ask_status k.status,
        required_errors_complete v source.required_paths k.required,
        early_errors-ready v source k,
        k.clean,
      )
      refl

pub inspect_source_complete :
    (v : View) (source : Source)
    → IsReady v source
    → inspect_source v source ≡ ok (ready_inspection v source)
unfolding inspect_source
inspect_source_complete v source k =
    rw (k.inside, k.exists, k.known) (inspect_checkout_complete v source k)

is_ready-errors : (r : Inspection) → r.state ≡ state_of r.errors → r.errors ≡ [] → is_ready r ≡ true
is_ready-errors r made none_left = by_state r.state (made ∙ ap state_of none_left)
  where
    by_state : (s : CheckoutState) → s ≡ ready → (elim s [ ready ↦ true | _ ↦ false ]) ≡ true
    by_state ready h = refl
    by_state _ h = cc

-- A result without an error is ready.
no_errors-is_ready :
    (v : View) (source : Source) {r : Inspection}
    → inspect_source v source ≡ ok r
    → r.errors ≡ []
    → is_ready r ≡ true
unfolding inspect_source inspect_checkout
no_errors-is_ready v source {r} h none_left =
    let (_, located, h1) = >>=-eq-ok (ensure v.inside escapes) _ h in
    elim (Bool-cases v.exists) [
      | inr absent ↦
          absurd (cc (none_left, ap (λ i. i.errors) (ap (result_or r) (rw absent at h1))))
      | inl exists ↦ elim (Bool-cases (is_checkout v)) [
        | inr other ↦
            absurd
              (cc (none_left, ap (λ i. i.errors) (ap (result_or r) (rw (exists, other) at h1))))
        | inl known ↦
            let (dirty, status, h2) =
              >>=-eq-ok (git_output v ask_status) _ (rw (exists, known) at h1) in
            let (absent, required, h3) = >>=-eq-ok (required_errors v source.required_paths) _ h2 in
            let same = ap (result_or r) h3 in
            is_ready-errors r (sym (ap (λ i. i.state) same) ∙ ap state_of (ap (λ i. i.errors) same))
              none_left
      ]
    ]

-- `inspect_source` returns the state ready exactly for a checkout below the root that Git knows,
-- whose only origin is that of the lock, which has the object format of the lock and as a
-- detached HEAD its commit, in which nothing is changed or new, and in which every required path
-- is there; and it returns without an error exactly for the same checkouts.
pub inspect_source_lem :
    (v : View) (source : Source)
    → (((r : Inspection) × (inspect_source v source ≡ ok r) × (is_ready r ≡ true))
        ↔ IsReady v source)
      × (((r : Inspection) × (inspect_source v source ≡ ok r) × (r.errors ≡ [])) ↔ IsReady v source)
inspect_source_lem v source = (
  (
    λ (r, h, is). inspect_source-IsReady v source h is,
    λ k. (ready_inspection v source, inspect_source_complete v source k, refl),
  ),
  (
    λ (r, h, none_left).
        inspect_source-IsReady v source h (no_errors-is_ready v source h none_left),
    λ k. (ready_inspection v source, inspect_source_complete v source k, refl),
  ),
)

-- the checks before a change let a checkout that is ready pass
pub preflight_existing-ready :
    (v : View) (source : Source) → IsReady v source → preflight_existing v source ≡ ok true
unfolding preflight_existing
preflight_existing-ready v source k =
    let (answered, same) = and-true (succeeded (v.query ask_format)) _ k.format in
    rw
      (
        k.inside,
        k.exists,
        k.known,
        k.origin,
        git_output_complete v ask_format answered,
        same,
        git_output_complete v ask_status k.status,
        k.clean,
        k.has_head,
        k.head,
        k.detached,
      )
      refl
