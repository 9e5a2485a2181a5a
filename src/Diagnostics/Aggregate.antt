-- ===== src/Diagnostics/Aggregate.antt =====
-- scripts/diagnostics.py: the results of `aggregate`.
use yocto_qemu_edu_lab.Common.{
  ◌≡◌, refl, ◌↔◌, Bool, true, ◌&&◌, not, List, [], ◌∷◌, all, any, arith,
}
use yocto_qemu_edu_lab.Diagnostics.Checks.{is_fail, is_unavailable, Check, aggregate}

-- A check that does not keep a command from succeeding.
abbrev pub acceptable : Check → Bool
acceptable c = not (is_fail c.status) && not (c.required && is_unavailable c.status)

acceptable-any :
    (cs : List Check)
    → all acceptable cs ≡ (
        not (any (λ c. is_fail c.status) cs)
        && not (any (λ c. c.required && is_unavailable c.status) cs))
acceptable-any [] = refl
acceptable-any (c ∷ cs) = ground (arith, acceptable-any cs)

-- The exit status is 0 exactly when no check failed and no required check is unavailable.
pub aggregate-zero : (cs : List Check) → ((aggregate cs).1 ≡ 0) ↔ (all acceptable cs ≡ true)
unfolding aggregate
aggregate-zero cs = ground (arith, acceptable-any cs)
