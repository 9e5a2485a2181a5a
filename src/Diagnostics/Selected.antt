-- ===== src/Diagnostics/Selected.antt =====
-- The source lock and the selected lab that a command of scripts/diagnostics.py ends with.
use mathlib.Core.Path.{ap₂}
use yocto_qemu_edu_lab.Common.{
  String, lookup, ◌≡◌, refl, sym, ap, subst, ◌∙◌, inl, inr, true, arith, Option-cases, Option, none,
  some, List, ◌∷◌, ok,
}
use yocto_qemu_edu_lab.Diagnostics.Checks.{Check, Command, status, doctor, inspect, evidence}
use yocto_qemu_edu_lab.Diagnostics.Environment.{Environment, Lock, Manifest}
use yocto_qemu_edu_lab.Diagnostics.Context.{
  init, project_version, repository, workflow, Context, Step, source_lock, lab_catalog,
  read_catalog, selection, read_selection, find_in,
}
use yocto_qemu_edu_lab.Diagnostics.Commands.{run_all, steps, extra}
use yocto_qemu_edu_lab.Diagnostics.Steps.Held.{is_some}
use yocto_qemu_edu_lab.Diagnostics.Runs.{run_all-cons}
use yocto_qemu_edu_lab.Diagnostics.Found.{
  Keeps, IsLock, IsCataloged, lab_or, Catalogs, Selects, unless_blocked-cases, source_lock-IsLock,
  read_catalog-IsCataloged, read_catalog-keeps, read_selection-Selects, read_selection-keeps,
}
use yocto_qemu_edu_lab.Diagnostics.Kept
use yocto_qemu_edu_lab.Diagnostics.Kept.{AllKeep, run_all-Keeps, extra-AllKeep}

-- The lock is what its file parses to; the manifests are those of the catalog that is read with it;
-- and the manifest is the one of the lab that is asked for, or of the default lab of the index.
pub record IsSelected (e : Environment) (requested : Option String) (d : Context) : Type 0 where
  pub lock : Lock
  pub lock_at : d.lock ≡ some lock
  pub valid : IsLock e lock
  pub labs : IsCataloged e lock requested d.lab_id d.manifests
  pub manifest : Manifest
  pub manifest_at : d.manifest ≡ some manifest
  pub found :
      lookup (lab_or labs.index.default_lab requested) labs.catalog.manifests ≡ some manifest

-- A context in which nothing is read yet.
record IsFresh (requested : Option String) (c : Context) : Type 0 where
  lock : c.lock ≡ none
  lab_id : c.lab_id ≡ requested
  manifests : c.manifests ≡ none
  manifest : c.manifest ≡ none

-- Steps that select a lab, where they end with a lock and a manifest.
abbrev Selecting : Environment → List Step → Type 0
Selecting e ms =
    (requested : Option String) (c : Context) (ks : List Check) (d : Context)
    → IsFresh requested c
    → run_all ms c ≡ ok (ks, d)
    → is_some d.lock ≡ true
    → is_some d.manifest ≡ true
    → IsSelected e requested d

Selecting-after :
    (e : Environment) (m : Step) (ms : List Step)
    → Kept.AlwaysKeeps m
    → Selecting e ms
    → Selecting e (m ∷ ms)
Selecting-after e m ms keeps next requested c ks d f h held found =
    let (k, b, rest, made, later, made_all) = run_all-cons m ms c h in
    let kept = keeps c k b made in
    next requested b rest d
      (record {
        lock = kept.lock ∙ f.lock;
        lab_id = kept.lab_id ∙ f.lab_id;
        manifests = kept.manifests ∙ f.manifests;
        manifest = kept.manifest ∙ f.manifest;
      })
      later held found

some-absent : {A : Type 0} {o p : Option A} → is_some o ≡ true → o ≡ p → p ≡ none → ⊥
some-absent h same absent = absurd cc (sym (ap is_some (same ∙ absent)) ∙ h)

some-inj {ℓ} : {A : Type ℓ} {s t : A} → some s ≡ some t → s ≡ t
some-inj h = cc

module _ (e : Environment) where
  lab_catalog-keeps :
      (a : Context) {k : Check} {b : Context}
      → lab_catalog e a ≡ ok (k, b)
      → (b.lock ≡ a.lock) × (b.manifest ≡ a.manifest)
  unfolding lab_catalog
  lab_catalog-keeps a h = elim (unless_blocked-cases _ _ (read_catalog e) a h) [
    | inl stuck ↦ (stuck.lock, stuck.manifest)
    | inr clear ↦ read_catalog-keeps e a clear
  ]

  lab_catalog-Catalogs :
      (a : Context) (lock : Lock) {k : Check} {b : Context}
      → lab_catalog e a ≡ ok (k, b)
      → a.lock ≡ some lock
      → Catalogs e lock a b
  unfolding lab_catalog
  lab_catalog-Catalogs a lock h held = elim (unless_blocked-cases _ _ (read_catalog e) a h) [
    | inl stuck ↦ inl stuck.manifests
    | inr clear ↦ read_catalog-IsCataloged e a lock clear held
  ]

  selection-Selects :
      (b : Context) {k : Check} {s : Context}
      → selection e b ≡ ok (k, s)
      → (s.lock ≡ b.lock) × (s.lab_id ≡ b.lab_id) × (s.manifests ≡ b.manifests) × Selects e b s
  unfolding selection
  selection-Selects b h = elim (unless_blocked-cases _ _ (read_selection e) b h) [
    | inl stuck ↦ (stuck.lock, stuck.lab_id, stuck.manifests, inl stuck.manifest)
    | inr clear ↦
        let (lock, lab_id, manifests) = read_selection-keeps e b clear in
        (lock, lab_id, manifests, read_selection-Selects e b clear)
  ]

  -- the manifest that is found is that of the lab
  found-manifest :
      {lab_id : Option String} {lab : String} {manifests catalog : List (String × Manifest)}
      {found : Option Manifest} {manifest : Manifest}
      → lab_id ≡ some lab
      → some manifests ≡ some catalog
      → found ≡ find_in lab_id manifests
      → found ≡ some manifest
      → lookup lab catalog ≡ some manifest
  unfolding find_in
  found-manifest lab_at at made some_found =
      sym (ap₂ find_in lab_at (some-inj at)) ∙ sym made ∙ some_found

  selected :
      (requested : Option String) (lock : Lock) (a b s d : Context)
      → d.lock ≡ some lock
      → IsLock e lock
      → a.lab_id ≡ requested
      → IsCataloged e lock a.lab_id b.lab_id b.manifests
      → s.lab_id ≡ b.lab_id
      → s.manifests ≡ b.manifests
      → ((manifests : List (String × Manifest)) × (b.manifests ≡ some manifests)
          × (s.manifest ≡ find_in b.lab_id manifests))
      → Keeps s d
      → is_some d.manifest ≡ true
      → IsSelected e requested d
  selected requested lock a b s d lock_at valid asked labs same_lab same_manifests
        (manifests, there, made) kept has =
      elim (Option-cases d.manifest) [
        | inl absent ↦ absurd (some-absent has refl absent)
        | inr (manifest, at) ↦
            let moved : IsCataloged e lock requested d.lab_id d.manifests =
              subst (λ r. IsCataloged e lock r d.lab_id d.manifests) asked
                (subst (λ l. IsCataloged e lock a.lab_id l d.manifests)
                  (sym (kept.lab_id ∙ same_lab))
                  (subst (λ m. IsCataloged e lock a.lab_id b.lab_id m)
                    (sym (kept.manifests ∙ same_manifests)) labs)) in
            record {
              lock = lock;
              lock_at = lock_at;
              valid = valid;
              labs = moved;
              manifest = manifest;
              manifest_at = at;
              found =
                  found-manifest moved.lab_at
                    (sym there ∙ sym (kept.manifests ∙ same_manifests) ∙ moved.manifests_at)
                    (kept.manifest
                      ∙ made
                      ∙ ap (λ l. find_in l manifests) (sym (kept.lab_id ∙ same_lab)))
                    at;
            }
      ]

  -- the three steps about the lock and the labs, and steps that keep them
  inputs-Selecting :
      (ms : List Step) → AllKeep ms → Selecting e (source_lock e ∷ lab_catalog e ∷ selection e ∷ ms)
  inputs-Selecting ms all requested c ks d f h held has =
      let (k, a, rest, first, h1, ks1) =
        run_all-cons (source_lock e) (lab_catalog e ∷ selection e ∷ ms) c h in
      let (k', b, rest', second, h2, ks2) = run_all-cons (lab_catalog e) (selection e ∷ ms) a h1 in
      let (k'', s, rest'', third, h3, ks3) = run_all-cons (selection e) ms b h2 in
      let kept = run_all-Keeps ms s all h3 in
      let (lab_same, manifests_same, manifest_same, locked) = source_lock-IsLock e c first in
      let (s_lock, s_lab, s_manifests, selects) = selection-Selects b third in
      let (b_lock, b_manifest) = lab_catalog-keeps a second in
      let lock_kept = kept.lock ∙ s_lock ∙ b_lock in
      elim locked [
        | inl same ↦ absurd (some-absent held lock_kept (same ∙ f.lock))
        | inr (lock, at, valid) ↦ elim selects [
          | inl same ↦
              absurd
                (some-absent has (kept.manifest ∙ same ∙ b_manifest) (manifest_same ∙ f.manifest))
          | inr (manifests, there, made) ↦ elim (lab_catalog-Catalogs a lock second at) [
            | inl same ↦ absurd (cc (sym there ∙ same ∙ manifests_same ∙ f.manifests))
            | inr labs ↦
                selected requested lock a b s d (lock_kept ∙ at) valid (lab_same ∙ f.lab_id) labs
                  s_lab s_manifests (manifests, there, made) kept has
          ]
        ]
      ]

  project-Selecting :
      (ms : List Step) → Selecting e ms → Selecting e (project_version e ∷ repository e ∷ ms)
  project-Selecting ms next =
      Selecting-after e (project_version e) (repository e ∷ ms) (Kept.project_version-AlwaysKeeps e)
        (Selecting-after e (repository e) ms (Kept.repository-AlwaysKeeps e) next)

  workflow-Selecting : (ms : List Step) → Selecting e ms → Selecting e (workflow e ∷ ms)
  workflow-Selecting ms next = Selecting-after e (workflow e) ms (Kept.workflow-AlwaysKeeps e) next

  -- The steps of every command select a lab.
  steps-Selecting : (command : Command) → Selecting e (steps e command)
  steps-Selecting status =
      project-Selecting _
        (workflow-Selecting _ (inputs-Selecting (extra e status) (extra-AllKeep e status)))
  steps-Selecting doctor =
      project-Selecting _
        (workflow-Selecting _ (inputs-Selecting (extra e doctor) (extra-AllKeep e doctor)))
  steps-Selecting inspect =
      project-Selecting _ (inputs-Selecting (extra e inspect) (extra-AllKeep e inspect))
  steps-Selecting evidence =
      project-Selecting _ (inputs-Selecting (extra e evidence) (extra-AllKeep e evidence))

init-IsFresh : (lab_id : Option String) {c : Context} → init lab_id ≡ ok c → IsFresh lab_id c
unfolding init
init-IsFresh lab_id h = ground arith

-- A run of a command that ends with a lock and a manifest has selected them.
pub run-IsSelected :
    (e : Environment) (command : Command) (lab_id : Option String) {c : Context} {ks : List Check}
    {d : Context}
    → init lab_id ≡ ok c
    → run_all (steps e command) c ≡ ok (ks, d)
    → is_some d.lock ≡ true
    → is_some d.manifest ≡ true
    → IsSelected e lab_id d
run-IsSelected e command lab_id {c} {ks} {d} start run held has =
    steps-Selecting e command lab_id c ks d (init-IsFresh lab_id start) run held has
