-- ===== src/SourceLock/Kept.antt =====
-- scripts/source_lock.py: what `sync_source` leaves as it is.
use yocto_qemu_edu_lab.Common.{
  str_eq, strip, ◌≡◌, refl, sym, ap, ◌∙◌, ◌⊎◌, inl, inr, Bool, true, false, not, Result, ok, err,
  ◌>>=◌, >>=-eq-ok, ensure, result_or, Bool-cases,
}
use yocto_qemu_edu_lab.SourceLock.Git.{
  succeeded, View, Git, SyncError, unavailable_offline, escapes, no_worktree, refused_origin,
  refused_format, refused_dirty, refused_head, Source, ask_head, ask_format, ask_status, ask_branch,
  origin_url, git_output,
}
use yocto_qemu_edu_lab.SourceLock.Inspect.{
  inspect_source, preflight_existing, preflight_checkout, head_checks, is_checkout, is_value,
}
use yocto_qemu_edu_lab.SourceLock.Sync.{
  SyncedSource, Act, continue, after, reading, ensure_there, ask_commit, obtain, check_out, confirm,
  sync_source,
}
use yocto_qemu_edu_lab.SourceLock.Ready.{
  IsReady, inspect_source_complete, ready_inspection, preflight_existing-ready,
}

pub Result-cases {ℓ κ} :
    {E : Type ℓ} {A : Type κ} (m : Result E A) → ((a : A) × (m ≡ ok a)) ⊎ ((e : E) × (m ≡ err e))
Result-cases (ok a) = inl (a, refl)
Result-cases (err e) = inr (e, refl)

head_checks-true :
    (v : View) (source : Source) {found : Bool} → head_checks v source ≡ ok found → found ≡ true
head_checks-true v source {found} h =
    let (_, same, h1) =
      >>=-eq-ok (ensure (str_eq (strip (v.query ask_head).stdout) source.commit) refused_head) _
        h in
    let (_, detached, h2) =
      >>=-eq-ok (ensure (not (succeeded (v.query ask_branch))) SyncError.not_detached) _ h1 in
    ap (result_or found) (sym h2)

-- Where there is a HEAD, the checks before a change find it.
preflight_existing-found :
    (v : View) (source : Source) {found : Bool}
    → v.exists ≡ true
    → succeeded (v.query ask_head) ≡ true
    → preflight_existing v source ≡ ok found
    → found ≡ true
unfolding preflight_existing
preflight_existing-found v source {found} exists head h =
    let (_, located, h1) = >>=-eq-ok (ensure v.inside escapes) _ h in
    let checked : preflight_checkout v source ≡ ok found = rw exists at h1 in
    let (_, known, h2) = >>=-eq-ok (ensure (is_checkout v) no_worktree) _ checked in
    let (_, ours, h3) =
      >>=-eq-ok (ensure (is_value (origin_url v) source.url) refused_origin) _ h2 in
    let (format, asked, h4) = >>=-eq-ok (git_output v ask_format) _ h3 in
    let (_, same, h5) =
      >>=-eq-ok (ensure (str_eq format source.object_format) refused_format) _ h4 in
    let (dirty, status, h6) = >>=-eq-ok (git_output v ask_status) _ h5 in
    let (_, clean, h7) = >>=-eq-ok (ensure (str_eq dirty "") refused_dirty) _ h6 in
    head_checks-true v source (rw head at h7)

module _ (G : Git) where
  pub after_ok :
      {A B : Type 0} (m : Act G A) (next : A → Act G B) {a : A} {w v : G.World}
      → m w ≡ (ok a, v)
      → after G m next w ≡ next a v
  after_ok m next h = ap (continue G next) h

  pub after_err :
      {A B : Type 0} (m : Act G A) (next : A → Act G B) {e : SyncError} {w v : G.World}
      → m w ≡ (err e, v)
      → after G m next w ≡ (err e, v)
  after_err m next h = ap (continue G next) h

  -- the steps of `sync_source` after the checks
  module _ (offline : Bool) (source : Source) where
    abbrev pub check : Act G Bool
    check = reading G (λ w. preflight_existing (G.view w source.path) source)

    abbrev pub finish : Bool → Act G SyncedSource
    finish created =
        reading G (λ w. inspect_source (G.view w source.path) source >>= confirm G created source)

    abbrev pub and_finish : Bool → Bool → Act G SyncedSource
    and_finish has_head created = after G (check_out G has_head source) (λ checked. finish created)

    abbrev pub and_check_out : Bool → Bool → Act G SyncedSource
    and_check_out has_head created =
        after G (obtain G offline source) (λ obtained. and_finish has_head created)

    abbrev pub and_obtain : Bool → Act G SyncedSource
    and_obtain has_head =
        after G (ensure_there G offline source) (λ created. and_check_out has_head created)

  -- Offline, what follows the checks leaves a checkout that is there as it is.
  offline_keeps :
      (source : Source) (w : G.World)
      → (G.view w source.path).exists ≡ true
      → (and_obtain true source true w).1 ≡ w
  offline_keeps source w exists =
      let available = (G.view w source.path).query (ask_commit source) in
      let found : ensure_there G true source w ≡ (ok false, w) = rw exists refl in
      ap (λ r. r.1) (after_ok (ensure_there G true source) (and_check_out true source true) found)
      ∙ elim (Bool-cases (succeeded available)) [
        | inl there ↦
            let got : obtain G true source w ≡ (ok tt, w) = rw there refl in
            ap (λ r. r.1)
              (after_ok (obtain G true source) (λ obtained. and_finish true source true false) got)
        | inr absent ↦
            let got : obtain G true source w ≡ (err unavailable_offline, w) = rw absent refl in
            ap (λ r. r.1)
              (after_err (obtain G true source) (λ obtained. and_finish true source true false) got)
      ]

  -- Offline, a checkout that is there and has a HEAD is left as it is, whatever the result.
  pub sync_source-offline :
      (source : Source) (w : G.World)
      → (G.view w source.path).exists ≡ true
      → succeeded ((G.view w source.path).query ask_head) ≡ true
      → (sync_source G true source w).1 ≡ w
  unfolding sync_source
  sync_source-offline source w exists head =
      elim (Result-cases (preflight_existing (G.view w source.path) source)) [
        | inr (e, refused) ↦
            let stopped : check true source w ≡ (err e, w) = ap (λ m. (m, w)) refused in
            ap (λ r. r.1) (after_err (check true source) (and_obtain true source) stopped)
        | inl (found, passed) ↦
            let is_found =
              preflight_existing-found (G.view w source.path) source exists head passed in
            let went_on : check true source w ≡ (ok true, w) =
              ap (λ m. (m, w)) (passed ∙ ap ok is_found) in
            ap (λ r. r.1) (after_ok (check true source) (and_obtain true source) went_on)
            ∙ offline_keeps source w exists
      ]

  -- Synchronizing offline once more, where the checkout is ready and has the commit, finds nothing
  -- to do: it reports the checkout as it is, not as created, and leaves the world as it is.
  pub sync_source_again :
      (source : Source) (w : G.World)
      → IsReady (G.view w source.path) source
      → succeeded ((G.view w source.path).query (ask_commit source)) ≡ true
      → sync_source G true source w ≡ (
        ok (record {
          inspection = ready_inspection (G.view w source.path) source;
          created = false;
        }),
        w,
      )
  unfolding sync_source
  sync_source_again source w k there =
      let passed : check true source w ≡ (ok true, w) =
        ap (λ m. (m, w)) (preflight_existing-ready (G.view w source.path) source k) in
      let found : ensure_there G true source w ≡ (ok false, w) = rw k.exists refl in
      let got : obtain G true source w ≡ (ok tt, w) = rw there refl in
      after_ok (check true source) (and_obtain true source) passed
      ∙ after_ok (ensure_there G true source) (and_check_out true source true) found
      ∙ after_ok (obtain G true source) (λ obtained. and_finish true source true false) got
      ∙ ap (λ m. (m >>= confirm G false source, w))
          (inspect_source_complete (G.view w source.path) source k)
