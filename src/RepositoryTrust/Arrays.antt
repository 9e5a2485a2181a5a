-- ===== src/RepositoryTrust/Arrays.antt =====
-- scripts/repository_trust.py: the validators of arrays, which return them sorted, and
-- `strict_json_equal`.
use yocto_qemu_edu_lab.Common.{
  ℕ, suc, String, str_eq, member, Bool, true, false, ◌&&◌, ◌||◌, not, none, some, List, [], ◌∷◌,
  map, if◌then◌else◌, leb, ltb, length, all, codes, ok, err, ◌>>=◌, ◌>>◌, ◌==◌,
}
use yocto_qemu_edu_lab.Json.{
  ℤ, pos, negsuc, Json, null, bool, int, float, str, arr, obj, Items, nil, cons, Fields, end, field,
  items, get,
}
use yocto_qemu_edu_lab.RepositoryTrust.Values.{
  TrustError, Checked, require, item_of, exact_object, token, not_methods, bad_method,
  duplicate_methods, not_patterns, bad_pattern, unsafe_pattern, duplicate_patterns, not_checks,
  duplicate_contexts,
}

-- `left <= right` of texts, by their code points
abbrev pub not_after : List ℕ → List ℕ → Bool
not_after [] right = true
not_after (c ∷ left) [] = false
not_after (c ∷ left) (d ∷ right) = ltb c d || c == d && not_after left right

module _ {ℓ} {A : Type ℓ} (key : A → String) where
  abbrev pub place : A → List A → List A
  place x [] = x ∷ []
  place x (y ∷ ys) =
      if not_after (codes (key x)) (codes (key y)) then x ∷ y ∷ ys else y ∷ place x ys

  -- `sorted(values, key=key)`
  unfoldable pub sorted : List A → List A
  sorted [] = []
  sorted (x ∷ xs) = place x (sorted xs)

abbrev pub distinct : List String → Bool
distinct [] = true
distinct (x ∷ xs) = not (member x xs) && distinct xs

abbrev pub to_items : List String → Items
to_items [] = nil
to_items (t ∷ ts) = cons (str t) (to_items ts)

abbrev pub merge_method_names : List String
merge_method_names = "merge" ∷ "rebase" ∷ "squash" ∷ []

-- the texts of an array, where each passes the test
abbrev pub texts_where : (String → Bool) → TrustError → List Json → Checked (List String)
texts_where test e [] = ok []
texts_where test e (str s ∷ vs) =
    require (test s) e >> (texts_where test e vs >>= λ texts. ok (s ∷ texts))
texts_where test e (_ ∷ vs) = err e

unfoldable pub merge_methods : Json → Checked Json
unfolding sorted
merge_methods (arr vs) =
    require (leb (length (items vs)) 3) not_methods
    >> (texts_where (λ s. member s merge_method_names) bad_method (items vs) >>= λ texts.
        require (distinct texts) duplicate_methods >> ok (arr (to_items (sorted (λ t. t) texts))))
merge_methods _ = err not_methods

abbrev is_blank : List ℕ → Bool
is_blank [] = true
is_blank (c ∷ text) = false

abbrev is_printable : ℕ → Bool
is_printable c = leb 33 c && leb c 126

-- the items in order, each tested for its length and then for its characters
abbrev pub pattern_texts : List Json → Checked (List String)
pattern_texts [] = ok []
pattern_texts (str s ∷ vs) =
    require (not (is_blank (codes s)) && leb (length (codes s)) 128) bad_pattern
    >> require (all is_printable (codes s)) unsafe_pattern
    >> (pattern_texts vs >>= λ texts. ok (s ∷ texts))
pattern_texts (_ ∷ vs) = err bad_pattern

unfoldable pub patterns : Json → Checked Json
unfolding sorted
patterns (arr vs) =
    require (leb (length (items vs)) 16) not_patterns
    >> (pattern_texts (items vs) >>= λ texts.
        require (distinct texts) duplicate_patterns >> ok (arr (to_items (sorted (λ t. t) texts))))
patterns _ = err not_patterns

pub record StatusCheck : Type 0 where
  pub context : String
  pub source : String

abbrev text_of : Json → String
text_of (str s) = s
text_of _ = ""

unfoldable pub status_check : Json → Checked StatusCheck
status_check value =
    exact_object value ("context" ∷ "source" ∷ []) ("context" ∷ "source" ∷ []) >>= λ entry.
    item_of "context" entry >>= token >>= λ context. item_of "source" entry >>= token >>= λ source.
    ok (record { context = text_of context; source = text_of source })

abbrev pub status_checks_in : List Json → Checked (List StatusCheck)
unfolding status_check
status_checks_in [] = ok []
status_checks_in (v ∷ vs) =
    status_check v >>= λ entry. status_checks_in vs >>= λ entries. ok (entry ∷ entries)

abbrev pub check_items : List StatusCheck → Items
check_items [] = nil
check_items (c ∷ cs) =
    cons (obj (field "context" (str c.context) (field "source" (str c.source) end)))
      (check_items cs)

unfoldable pub status_checks : Json → Checked Json
unfolding sorted status_checks_in
status_checks (arr vs) =
    require (leb (length (items vs)) 16) not_checks
    >> (status_checks_in (items vs) >>= λ checks.
        require (distinct (map (λ c. c.context) checks)) duplicate_contexts
        >> ok (arr (check_items (sorted (λ c. c.context) checks))))
status_checks _ = err not_checks

abbrev pub same_bool : Bool → Bool → Bool
same_bool true b = b
same_bool false b = not b

abbrev pub same_integer : ℤ → ℤ → Bool
same_integer (pos m) (pos n) = m == n
same_integer (negsuc m) (negsuc n) = m == n
same_integer _ _ = false

-- `value == (1 if b else 0)`
abbrev pub counts_as : Bool → ℤ → Bool
counts_as b (pos n) = if b then n == 1 else n == 0
counts_as b (negsuc n) = false

abbrev pub field_count : Fields → ℕ
field_count end = 0
field_count (field k v fs) = suc (field_count fs)

unfoldable mutual
  -- Equality of values, by the second one. With `loose`, a boolean equals the integer that Python
  -- takes it for; without it, this is `strict_json_equal`.
  pub equal : Bool → Json → Json → Bool
  equal loose null null = true
  equal loose (bool a) (bool b) = same_bool a b
  equal loose (int m) (bool b) = loose && counts_as b m
  equal loose (bool a) (int n) = loose && counts_as a n
  equal loose (int m) (int n) = same_integer m n
  equal loose (float s) (float t) = str_eq s t
  equal loose (str s) (str t) = str_eq s t
  equal loose (arr us) (arr vs) = equal_items loose us vs
  equal loose (obj fs) (obj gs) = (field_count fs == field_count gs) && equal_fields loose fs gs
  equal loose _ _ = false

  pub equal_items : Bool → Items → Items → Bool
  equal_items loose nil nil = true
  equal_items loose (cons u us) (cons v vs) = equal loose u v && equal_items loose us vs
  equal_items loose _ _ = false

  -- every field of the second object, in the first; the keys of an object are distinct
  pub equal_fields : Bool → Fields → Fields → Bool
  equal_fields loose fs end = true
  equal_fields loose fs (field k v gs) =
      (elim (get k fs) [ none ↦ false | some u ↦ equal loose u v ]) && equal_fields loose fs gs

-- Python's `==` of values of which no float meets a number or a float of another text, as the
-- validators that come before a comparison make sure
abbrev pub loosely : Json → Json → Bool
loosely = equal true

abbrev pub strict_json_equal : Json → Json → Bool
strict_json_equal = equal false
