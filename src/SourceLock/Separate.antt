-- ===== src/SourceLock/Separate.antt =====
-- scripts/source_lock.py: what `sync_source` does to the checkout of its source and to others.
use yocto_qemu_edu_lab.Common.{
  String, str_eq, ◌≡◌, refl, ap, subst, ◌∙◌, inl, inr, Bool, true, false, ◌&&◌, not, List,
  if◌then◌else◌, ok, err, ◌>>=◌, >>=-eq-ok, ensure, ensure-true, Bool-cases,
}
use yocto_qemu_edu_lab.SourceLock.Validate.{overlaps}
use yocto_qemu_edu_lab.SourceLock.Git.{
  View, Git, missing_offline, git_failed, Synced, Source, not_ready,
}
use yocto_qemu_edu_lab.SourceLock.Inspect.{inspect_source, is_ready}
use yocto_qemu_edu_lab.SourceLock.Sync.{
  SyncedSource, Act, continue, after, reading, running, create, ensure_there, obtain, check_out,
  confirm, sync_source, refspecs, is_release,
}
use yocto_qemu_edu_lab.SourceLock.Ready.{IsReady, inspect_source-IsReady}
use yocto_qemu_edu_lab.SourceLock.Kept.{finish, and_finish, and_check_out, and_obtain, check}

abbrev pub are_separate : String → String → Bool
are_separate p q = not (str_eq p q) && not (overlaps p q)

-- What is assumed of Git and the file system: an operation on one path leaves what can be read at
-- another alone, if neither lies below the other.
pub record IsSeparate (G : Git) : Type 0 where
  pub after_make_parent :
      (w : G.World) (p q : String)
      → are_separate p q ≡ true
      → G.view (G.make_parent w p) q ≡ G.view w q
  pub after_init :
      (w : G.World) (p q : String) → are_separate p q ≡ true → G.view (G.init w p).1 q ≡ G.view w q
  pub after_add_remote :
      (w : G.World) (p url q : String)
      → are_separate p q ≡ true
      → G.view (G.add_remote w p url).1 q ≡ G.view w q
  pub after_fetch :
      (w : G.World) (p : String) (refs : List String) (q : String)
      → are_separate p q ≡ true
      → G.view (G.fetch w p refs).1 q ≡ G.view w q
  pub after_checkout :
      (w : G.World) (p commit q : String)
      → are_separate p q ≡ true
      → G.view (G.checkout w p commit).1 q ≡ G.view w q

module _ (G : Git) (laws : IsSeparate G) where
  -- a call that leaves what can be read at a path alone
  abbrev pub Keeps : {A : Type 0} → String → Act G A → Type 0
  Keeps q m = (w : G.World) → G.view (m w).1 q ≡ G.view w q

  continue-Keeps :
      {A B : Type 0} (q : String) (next : A → Act G B) (r : Synced A × G.World)
      → ((a : A) → Keeps q (next a))
      → G.view (continue G next r).1 q ≡ G.view r.1 q
  continue-Keeps q next (ok a, v) keeps = keeps a v
  continue-Keeps q next (err e, v) keeps = refl

  pub Keeps-after :
      {A B : Type 0} (q : String) (m : Act G A) (next : A → Act G B)
      → Keeps q m
      → ((a : A) → Keeps q (next a))
      → Keeps q (after G m next)
  Keeps-after q m next first then_ w = continue-Keeps q next (m w) then_ ∙ first w

  module _ (source : Source) (q : String) (separate : are_separate source.path q ≡ true) where
    create-Keeps : Keeps q (create G source)
    create-Keeps =
        Keeps-after q _ _
          (λ w. laws.after_init _ _ q separate ∙ laws.after_make_parent w _ q separate)
          (λ made w. laws.after_add_remote w _ _ q separate)

    ensure_there-Keeps : (offline : Bool) → Keeps q (ensure_there G offline source)
    ensure_there-Keeps offline w = elim (Bool-cases (G.view w source.path).exists) [
      | inl there ↦ rw there refl
      | inr absent ↦ rw absent (by_mode offline)
    ]
      where
        by_mode :
            (mode : Bool)
            → G.view
                (if mode
                  then (err missing_offline, w)
                  else after G (create G source) (λ made v. (ok true, v)) w).1
                q
              ≡ G.view w q
        by_mode true = refl
        by_mode false =
            Keeps-after q (create G source) (λ made v. (ok true, v)) create-Keeps (λ made v. refl) w

    obtain-Keeps : (offline : Bool) → Keeps q (obtain G offline source)
    obtain-Keeps true w = refl
    obtain-Keeps false w =
        Keeps-after q (running G git_failed (λ v. G.fetch v source.path (refspecs source)))
          (λ fetched. reading G (is_release G source))
          (λ v. laws.after_fetch v source.path (refspecs source) q separate) (λ fetched v. refl) w

    check_out-Keeps : (has_head : Bool) → Keeps q (check_out G has_head source)
    check_out-Keeps true w = refl
    check_out-Keeps false w = laws.after_checkout w _ _ q separate

    pub sync_source-Keeps : (offline : Bool) → Keeps q (sync_source G offline source)
    unfolding sync_source
    sync_source-Keeps offline =
        Keeps-after q (check G offline source) (and_obtain G offline source) (λ w. refl)
          (λ has_head.
            Keeps-after q _ (and_check_out G offline source has_head) (ensure_there-Keeps offline)
              (λ created.
                Keeps-after q _ (λ obtained. and_finish G offline source has_head created)
                  (obtain-Keeps offline)
                  (λ obtained.
                    Keeps-after q _ (λ checked. finish G offline source created)
                      (check_out-Keeps has_head) (λ checked w. refl))))

  -- A call that returns has gone through its parts.
  pub continue-ok :
      {A B : Type 0} (next : A → Act G B) (r : Synced A × G.World) {b : B} {v : G.World}
      → continue G next r ≡ (ok b, v)
      → (a : A) × (u : G.World) × (r ≡ (ok a, u)) × (next a u ≡ (ok b, v))
  continue-ok next (ok a, u) h = (a, u, refl, h)
  continue-ok next (err e, u) h = absurd (cc (ap (λ p. p.0) h))

  reading-ok :
      {A : Type 0} (look : G.World → Synced A) {a : A} {w v : G.World}
      → reading G look w ≡ (ok a, v)
      → (look w ≡ ok a) × (w ≡ v)
  reading-ok look h = (ap (λ p. p.0) h, ap (λ p. p.1) h)

  confirm-IsReady :
      (v : View) (created : Bool) (source : Source) {s : SyncedSource}
      → (inspect_source v source >>= confirm G created source) ≡ ok s
      → IsReady v source
  confirm-IsReady v created source h =
      let (r, inspected, h1) = >>=-eq-ok (inspect_source v source) _ h in
      let (_, fine, h2) = >>=-eq-ok (ensure (is_ready r) (not_ready r.errors)) _ h1 in
      inspect_source-IsReady v source inspected (ensure-true _ _ fine)

  -- A source that was synchronized is ready in the world after it.
  pub sync_source-IsReady :
      (offline : Bool) (source : Source) (w : G.World) {s : SyncedSource} {v : G.World}
      → sync_source G offline source w ≡ (ok s, v)
      → IsReady (G.view v source.path) source
  unfolding sync_source
  sync_source-IsReady offline source w {s} {v} h =
      let (has_head, w1, checked, h1) =
        continue-ok (and_obtain G offline source) (check G offline source w) h in
      let (created, w2, there, h2) =
        continue-ok (and_check_out G offline source has_head) (ensure_there G offline source w1)
          h1 in
      let (_, w3, obtained, h3) =
        continue-ok (λ obtained. and_finish G offline source has_head created)
          (obtain G offline source w2) h2 in
      let (_, w4, out, h4) =
        continue-ok (λ checked. finish G offline source created) (check_out G has_head source w3)
          h3 in
      let (looked, same) =
        reading-ok (λ u. inspect_source (G.view u source.path) source >>= confirm G created source)
          h4 in
      subst (λ u. IsReady (G.view u source.path) source) same
        (confirm-IsReady (G.view w4 source.path) created source looked)
