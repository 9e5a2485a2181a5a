-- ===== src/RepositoryTrust/Approved.antt =====
-- scripts/repository_trust.py: facts whose checks all pass, and the approved policy.
use yocto_qemu_edu_lab.Common.{
  String, ◌≡◌, refl, Bool, true, false, ◌&&◌, not, List, [], ◌∷◌, ◌++◌, all, any, All, and-true,
  arith, Bool-cases, inl, inr,
}
use yocto_qemu_edu_lab.Json.{Json, Fields, get}
use yocto_qemu_edu_lab.RepositoryTrust.Arrays.{loosely}
use yocto_qemu_edu_lab.RepositoryTrust.Policy.{approved_policy}
use yocto_qemu_edu_lab.RepositoryTrust.Facts.{
  Facts, repository_keys, action_keys, ruleset_keys, security_keys, facts_from_observation,
}
use yocto_qemu_edu_lab.RepositoryTrust.Statuses.{
  Status, pass, is_null, value_of, scalar_status, combined_status, one, repository_statuses,
  action_statuses, ruleset_statuses, security_statuses, check_statuses, is_fail, is_unavailable,
  aggregate,
}

abbrev Passed : List (String × Status) → Type 0
Passed = All (λ c. c.1 ≡ pass)

is_pass : (s : Status) → is_fail s ≡ false → is_unavailable s ≡ false → s ≡ pass
is_pass s h k = ground arith

all-Passed :
    (cs : List (String × Status))
    → any (λ c. is_fail c.1) cs ≡ false
    → any (λ c. is_unavailable c.1) cs ≡ false
    → Passed cs
all-Passed [] h k = tt
all-Passed ((i, s) ∷ cs) h k =
    (is_pass s (ground arith) (ground arith), all-Passed cs (ground arith) (ground arith))

aggregate-Passed : (cs : List (String × Status)) → aggregate cs ≡ pass → Passed cs
unfolding aggregate
aggregate-Passed cs h = elim (Bool-cases (any (λ c. is_fail c.1) cs)) [
  | inl failed ↦ cc (rw failed at h)
  | inr none_failed ↦ elim (Bool-cases (any (λ c. is_unavailable c.1) cs)) [
    | inl missing ↦ cc (rw (none_failed, missing) at h)
    | inr none_missing ↦ all-Passed cs none_failed none_missing
  ]
]

Passed-split : (xs ys : List (String × Status)) → Passed (xs ++ ys) → Passed xs × Passed ys
Passed-split [] ys p = (tt, p)
Passed-split (x ∷ xs) ys (p, ps) = let (here, there) = Passed-split xs ys ps in ((p, here), there)

scalar-pass : (v e : Json) → scalar_status v e ≡ pass → loosely v e ≡ true
unfolding scalar_status
scalar-pass v e h = elim (Bool-cases (loosely v e)) [
  | inl same ↦ same
  | inr other ↦ elim (Bool-cases (is_null v)) [
    | inl absent ↦ cc (rw absent at h)
    | inr there ↦ cc (rw (there, other) at h)
  ]
]

-- what the facts and the wanted facts have under some keys
abbrev pub agree_in : List String → Fields → Fields → Bool
agree_in keys facts wanted = all (λ k. loosely (value_of k facts) (value_of k wanted)) keys

-- every fact is the wanted one
abbrev pub agree : Facts → Facts → Bool
agree facts wanted =
    agree_in repository_keys facts.repository wanted.repository
    && agree_in action_keys facts.actions wanted.actions
    && agree_in ruleset_keys facts.rules wanted.rules
    && agree_in security_keys facts.security wanted.security

abbrev pub approved : Facts
approved = facts_from_observation approved_policy

both : {a b : Bool} → a ≡ true → b ≡ true → (a && b) ≡ true
both h k = rw (h, k) refl

one-pass :
    (key : String) (e : Json) (t : Fields) → one key e t ≡ pass → loosely (value_of key t) e ≡ true
one-pass key e t = scalar-pass (value_of key t) e

expected :
    (es : List (Json × Json))
    → any (λ p. not (is_null p.0) && not (loosely p.0 p.1)) es ≡ false
    → any (λ p. is_null p.0) es ≡ false
    → all (λ p. loosely p.0 p.1) es ≡ true
expected [] h k = refl
expected ((v, e) ∷ es) h k = ground (arith, expected es)

combined-pass :
    (es : List (Json × Json)) → combined_status es ≡ pass → all (λ p. loosely p.0 p.1) es ≡ true
unfolding combined_status
combined-pass es h = elim (Bool-cases (any (λ p. not (is_null p.0) && not (loosely p.0 p.1)) es)) [
  | inl failed ↦ cc (rw failed at h)
  | inr none_failed ↦ elim (Bool-cases (any (λ p. is_null p.0) es)) [
    | inl missing ↦ cc (rw (none_failed, missing) at h)
    | inr none_missing ↦ expected es none_failed none_missing
  ]
]

repository-agree :
    (t : Fields)
    → Passed (repository_statuses t)
    → agree_in repository_keys t approved.repository ≡ true
unfolding facts_from_observation get
repository-agree t (a, (b, (c, (d, _)))) =
    both (one-pass _ _ t a)
      (both (one-pass _ _ t b) (both (one-pass _ _ t c) (both (one-pass _ _ t d) refl)))

security-agree :
    (t : Fields) → Passed (security_statuses t) → agree_in security_keys t approved.security ≡ true
unfolding facts_from_observation get
security-agree t (a, (b, (c, (d, (e, (f, _)))))) = both (one-pass _ _ t a) (
    both (one-pass _ _ t b) (
      both (one-pass _ _ t c)
        (both (one-pass _ _ t d) (both (one-pass _ _ t e) (both (one-pass _ _ t f) refl)))))

actions-agree :
    (t : Fields) → Passed (action_statuses t) → agree_in action_keys t approved.actions ≡ true
unfolding facts_from_observation get
actions-agree t (a, (b, (c, (d, (e, (f, _)))))) = both (one-pass _ _ t a) (
    both (one-pass _ _ t b) (
      both (one-pass _ _ t c)
        (both (one-pass _ _ t d) (both (one-pass _ _ t e) (combined-pass _ f)))))

rules-agree :
    (t : Fields) → Passed (ruleset_statuses t) → agree_in ruleset_keys t approved.rules ≡ true
unfolding facts_from_observation get
rules-agree t p =
    let (active, (name, (target, (bypass, (deletion, (forward, later)))))) = p in
    let (linear, (create, (request, (squash, (strict, (exact, _)))))) = later in
    let (required, h) = and-true _ _ (combined-pass _ request) in
    let (count, _) = and-true _ _ h in
    both (one-pass _ _ t name) (
      both (one-pass _ _ t active) (
        both (one-pass _ _ t target) (
          both (one-pass _ _ t bypass) (
            both (one-pass _ _ t deletion) (
              both (one-pass _ _ t forward) (
                both (one-pass _ _ t linear) (
                  both (one-pass _ _ t create) (
                    both required (
                      both count (
                        both (one-pass _ _ t squash) (
                          both (one-pass _ _ t strict)
                            (both (scalar-pass _ _ exact) refl))))))))))))

-- When the checks of some facts aggregate to a pass, every fact is the one that the approved policy,
-- read as an observation, shows.
pub aggregate-approved :
    (facts : Facts) → aggregate (check_statuses facts) ≡ pass → agree facts approved ≡ true
unfolding check_statuses
aggregate-approved facts h =
    let r = repository_statuses facts.repository in
    let a = action_statuses facts.actions in
    let u = ruleset_statuses facts.rules in
    let s = security_statuses facts.security in
    let (rau, security) = Passed-split (r ++ a ++ u) s (aggregate-Passed (r ++ a ++ u ++ s) h) in
    let (ra, rules) = Passed-split (r ++ a) u rau in
    let (repository, actions) = Passed-split r a ra in
    both
      (both
        (both (repository-agree facts.repository repository) (actions-agree facts.actions actions))
        (rules-agree facts.rules rules))
      (security-agree facts.security security)
