-- ===== src/LabConfig/Rules.antt =====
-- scripts/lab_config.py: the comparison of what a manifest says with the rule of a profile.
use yocto_qemu_edu_lab.Common.{
  String, str_eq, eq_iff, lookup, ◌≡◌, ap, subst, ◌∙◌, inl, inr, true, some, List, [], ◌∷◌, map,
  All, arith, ok, >>=-eq-ok, ensure-true, in_turn-ok, result_or, Option-cases, Bool-cases,
  if◌then◌else◌,
}
use yocto_qemu_edu_lab.Json.{pos, Json, int, str, Fields, get}
use yocto_qemu_edu_lab.LabConfig.Values.{Checked, other_value}
use yocto_qemu_edu_lab.LabConfig.Profiles.{Rule}
use yocto_qemu_edu_lab.LabConfig.Fields.{collect, same_value, rule_check, rule_checks}
use yocto_qemu_edu_lab.LabConfig.Reads.{IsRead}

same_value-eq : (v w : Json) → same_value v w ≡ true → v ≡ w
same_value-eq (str s) (str t) h = ap str ((eq_iff s t).0 h)
same_value-eq (int (pos m)) (int (pos n)) h = ap (λ k. int (pos k)) (ground arith)
same_value-eq _ _ h = cc

-- The fields that a value is read from, for each key.
module _ (holder : String → Fields) where
  abbrev pub AllRead : List (String × Checked Json) → Type 0
  AllRead reads = All (λ p. IsRead (holder p.0) p.0 p.1) reads

  -- What is looked up among the values that were collected was read under that key.
  collect-get :
      (reads : List (String × Checked Json)) {actual : List (String × Json)} (key : String)
      {v : Json}
      → AllRead reads
      → collect reads ≡ ok actual
      → lookup key actual ≡ some v
      → get key (holder key) ≡ some v
  unfolding lookup
  collect-get [] {actual} key all h found = cc (rw (← ap (result_or actual) h) at found)
  collect-get ((k, read) ∷ reads) {actual} key {v} (sure, all) h found =
      let (w, returned, h1) = >>=-eq-ok read _ h in
      let (rest, later, h2) = >>=-eq-ok (collect reads) _ h1 in
      let step : (if str_eq k key then some w else lookup key rest) ≡ some v =
        ap (lookup key) (ap (result_or actual) h2) ∙ found in
      elim (Bool-cases (str_eq k key)) [
        | inl same ↦
            let value : w ≡ v = cc (rw same at step) in
            subst (λ j. get j (holder j) ≡ some v) ((eq_iff k key).0 same)
              (sure v (returned ∙ ap ok value))
        | inr other ↦ collect-get reads key all later (rw other at step)
      ]

  -- the fields that a rule names have the values of the rule
  abbrev pub Follows : Rule → Type 0
  Follows rule = All (λ p. get p.0 (holder p.0) ≡ some p.1) rule

  rule_check-get :
      (reads : List (String × Checked Json)) (actual : List (String × Json)) (key : String)
      (expected : Json)
      → AllRead reads
      → collect reads ≡ ok actual
      → rule_check actual (key, expected) ≡ ok tt
      → get key (holder key) ≡ some expected
  rule_check-get reads actual key expected all read h = elim (Option-cases (lookup key actual)) [
    | inl absent ↦ cc (rw (absent, rule_check) at h)
    | inr (v, found) ↦
        let same = ensure-true (same_value v expected) other_value (rw (found, rule_check) at h) in
        collect-get reads key all read found ∙ ap some (same_value-eq v expected same)
  ]

  rule-Follows :
      (reads : List (String × Checked Json)) (actual : List (String × Json)) (rule : Rule)
      → AllRead reads
      → collect reads ≡ ok actual
      → All (λ c. c ≡ ok tt) (map (rule_check actual) rule)
      → Follows rule
  rule-Follows reads actual [] all read h = tt
  rule-Follows reads actual ((key, expected) ∷ rule) all read (first, rest) = (
    rule_check-get reads actual key expected all read first,
    rule-Follows reads actual rule all read rest,
  )

  -- Values that were read and follow a rule make the fields follow it.
  pub rule_checks-Follows :
      (reads : List (String × Checked Json)) (actual : List (String × Json)) (rule : Rule)
      → AllRead reads
      → collect reads ≡ ok actual
      → rule_checks rule actual ≡ ok tt
      → Follows rule
  rule_checks-Follows reads actual rule all read h =
      rule-Follows reads actual rule all read (in_turn-ok (map (rule_check actual) rule) h)
