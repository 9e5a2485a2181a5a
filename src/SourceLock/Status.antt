-- ===== src/SourceLock/Status.antt =====
-- scripts/source_lock.py: `status_result` after `sync_result`.
use yocto_qemu_edu_lab.Common.{
  String, str_eq, eq_iff, member, ◌≡◌, refl, sym, ap, subst, ◌∙◌, Bool, true, ◌&&◌, ◌||◌, not, List,
  [], ◌∷◌, map, any, all, All, arith, ok, and-true,
}
use yocto_qemu_edu_lab.SourceLock.Validate.{overlaps}
use yocto_qemu_edu_lab.SourceLock.Spec.{apart}
use yocto_qemu_edu_lab.SourceLock.Git.{Git, Source}
use yocto_qemu_edu_lab.SourceLock.Inspect.{inspect_all, status_result, is_ready}
use yocto_qemu_edu_lab.SourceLock.Sync.{SyncedSource, after, sync_source, sync_result}
use yocto_qemu_edu_lab.SourceLock.Ready.{IsReady, inspect_source_complete, ready_inspection}
use yocto_qemu_edu_lab.SourceLock.Separate.{
  are_separate, IsSeparate, Keeps, Keeps-after, sync_source-Keeps, continue-ok, sync_source-IsReady,
}

flipped :
    (p q : String) → not (str_eq p q) ≡ true → not (overlaps p q) ≡ true → are_separate q p ≡ true
flipped p q h k = ground (arith, eq_iff p q, eq_iff q p)

split_or :
    (a b c d : Bool)
    → not (a || b) ≡ true
    → not (c || d) ≡ true
    → (not a ≡ true) × (not b ≡ true) × (not c ≡ true) × (not d ≡ true)
split_or a b c d h k = ground arith

separate_all :
    (p : String) (paths : List String)
    → not (member p paths) ≡ true
    → not (any (overlaps p) paths) ≡ true
    → All (λ q. are_separate q p ≡ true) paths
separate_all p [] h k = tt
separate_all p (q ∷ paths) h k =
    let (other, others, clear, clears) =
      split_or (str_eq p q) (member p paths) (overlaps p q) (any (overlaps p) paths) h k in
    (flipped p q other clear, separate_all p paths others clears)

-- The paths of the sources are apart from one path.
apart-split :
    (path : String) (paths : List String)
    → apart (path ∷ paths) ≡ true
    → All (λ q. are_separate q path ≡ true) paths × (apart paths ≡ true)
apart-split path paths h =
    let (both, later) =
      and-true (not (member path paths) && not (any (overlaps path) paths)) (apart paths) h in
    let (other, clear) = and-true (not (member path paths)) _ both in
    (separate_all path paths other clear, later)

module _ (G : Git) (laws : IsSeparate G) where
  sync_result-Keeps :
      (offline : Bool) (sources : List Source) (q : String)
      → All (λ p. are_separate p q ≡ true) (map (λ s. s.path) sources)
      → Keeps G laws q (sync_result G offline sources)
  unfolding sync_result
  sync_result-Keeps offline [] q h w = refl
  sync_result-Keeps offline (source ∷ sources) q (first, rest) w =
      Keeps-after G laws q (sync_source G offline source)
        (λ result.
          after G (sync_result G offline sources) (λ results v. (ok (result ∷ results), v)))
        (sync_source-Keeps G laws source q first offline)
        (λ result.
          Keeps-after G laws q (sync_result G offline sources)
            (λ results v. (ok (result ∷ results), v)) (sync_result-Keeps offline sources q rest)
            (λ results v. refl))
        w

  sync_result-IsReady :
      (offline : Bool) (sources : List Source) (w : G.World) {results : List SyncedSource}
      {v : G.World}
      → apart (map (λ s. s.path) sources) ≡ true
      → sync_result G offline sources w ≡ (ok results, v)
      → All (λ s. IsReady (G.view v s.path) s) sources
  unfolding sync_result
  sync_result-IsReady offline [] w separate h = tt
  sync_result-IsReady offline (source ∷ sources) w {results} {v} separate h =
      let (others, later) = apart-split source.path (map (λ s. s.path) sources) separate in
      let (one, w1, synced, h1) =
        continue-ok G laws
          (λ result.
            after G (sync_result G offline sources) (λ results v. (ok (result ∷ results), v)))
          (sync_source G offline source w) h in
      let (rest, w2, all_synced, h2) =
        continue-ok G laws (λ results v. (ok (one ∷ results), v)) (sync_result G offline sources w1)
          h1 in
      let same : w2 ≡ v = ap (λ p. p.1) h2 in
      let kept : G.view w2 source.path ≡ G.view w1 source.path =
        ap (λ p. G.view p.1 source.path) (sym all_synced)
        ∙ sync_result-Keeps offline sources source.path others w1 in
      let first : IsReady (G.view v source.path) source =
        subst (λ u. IsReady (G.view u source.path) source) same
          (subst (λ view. IsReady view source) (sym kept)
            (sync_source-IsReady G laws offline source w synced)) in
      (
        first,
        sync_result-IsReady offline sources w1 later (all_synced ∙ ap (λ u. (ok rest, u)) same),
      )

  inspect_all_complete :
      (v : G.World) (sources : List Source)
      → All (λ s. IsReady (G.view v s.path) s) sources
      → inspect_all G v sources ≡ ok (map (λ s. ready_inspection (G.view v s.path) s) sources)
  inspect_all_complete v [] h = refl
  inspect_all_complete v (source ∷ sources) (first, rest) =
      rw
        (
          inspect_source_complete (G.view v source.path) source first,
          inspect_all_complete v sources rest,
        )
        refl

  all-is_ready :
      (v : G.World) (sources : List Source)
      → all is_ready (map (λ s. ready_inspection (G.view v s.path) s) sources) ≡ true
  all-is_ready v [] = refl
  all-is_ready v (source ∷ sources) = all-is_ready v sources

  -- After a synchronization that returns, for sources none of whose paths is or lies below
  -- another, and where an operation of Git on one path leaves what can be read at such others
  -- alone: the status is ok, and reports every source as ready.
  pub sync_result-status_result :
      (offline : Bool) (sources : List Source) (w : G.World) (results : List SyncedSource)
      (v : G.World)
      → apart (map (λ s. s.path) sources) ≡ true
      → sync_result G offline sources w ≡ (ok results, v)
      → status_result G v sources
        ≡ ok (true, map (λ s. ready_inspection (G.view v s.path) s) sources)
  unfolding status_result
  sync_result-status_result offline sources w results v separate h =
      let ready = sync_result-IsReady offline sources w separate h in
      rw (inspect_all_complete v sources ready, all-is_ready v sources) refl
