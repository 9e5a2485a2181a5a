-- ===== src/SourceLock/Normal.antt =====
-- scripts/source_lock.py: which texts `relative_path` takes for normalized, said of the parts
-- between the slashes.
use yocto_qemu_edu_lab.Common.{
  ℕ, String, is_space, leb, ◌↔◌, ok, ◌>>=◌, ◌>>◌, suc, ◌+◌, ◌≤◌, ◌<◌, ◌≡◌, refl, sym, ap, subst,
  ◌∙◌, inl, inr, Bool, true, false, ◌&&◌, ◌||◌, not, List, [], ◌∷◌, any, codes, same_bytes, length,
  length-append, Bool-cases, arith, ◌==◌, ==_iff,
}
use yocto_qemu_edu_lab.Json.{str}
use yocto_qemu_edu_lab.SourceLock.Values.{
  relative_path, is_blank, max_string_length, require, not_text, long_text, bad_slash, has_space,
  not_normalized,
}
use yocto_qemu_edu_lab.SourceLock.Paths.{
  backslash, slash, onto_first, split, is_dropped, keep, parts, is_absolute, join, is_none,
  as_posix, is_special, is_normalized,
}

same_bytes-eq : (xs ys : List ℕ) → same_bytes xs ys ≡ true → xs ≡ ys
same_bytes-eq [] [] h = refl
same_bytes-eq [] (y ∷ ys) h = cc
same_bytes-eq (x ∷ xs) [] h = cc
same_bytes-eq (x ∷ xs) (y ∷ ys) h = ground (arith, ==_iff x y, same_bytes-eq xs ys)

same_bytes_refl : (xs : List ℕ) → same_bytes xs xs ≡ true
same_bytes_refl [] = refl
same_bytes_refl (x ∷ xs) = ground (arith, same_bytes_refl xs)

-- `split` has at least one part.
split-some : (text : List ℕ) → is_none (split text) ≡ false
split-some [] = refl
split-some (c ∷ text) = ground (arith, split-some text)

join-onto : (c : ℕ) (ps : List (List ℕ)) → is_none ps ≡ false → join (onto_first c ps) ≡ c ∷ join ps
join-onto c [] h = cc
join-onto c (p ∷ []) h = refl
join-onto c (p ∷ q ∷ ps) h = refl

join-empty : (ps : List (List ℕ)) → is_none ps ≡ false → join ([] ∷ ps) ≡ slash ∷ join ps
join-empty [] h = cc
join-empty (p ∷ ps) h = refl

join-split : (text : List ℕ) → join (split text) ≡ text
join-split [] = refl
join-split (c ∷ text) = elim (Bool-cases (c == slash)) [
  | inl same ↦
      rw (same, join-empty (split text) (split-some text), join-split text)
        (ap (λ d. d ∷ text) (sym ((==_iff c slash).0 same)))
  | inr other ↦ rw (other, join-onto c (split text) (split-some text), join-split text) refl
]

-- the length of the parts, each with a slash
abbrev size : List (List ℕ) → ℕ
size [] = 0
size (p ∷ ps) = suc (length p) + size ps

length-join : (ps : List (List ℕ)) → is_none ps ≡ false → suc (length (join ps)) ≡ size ps
length-join [] h = cc
length-join (p ∷ []) h = omega arith
length-join (p ∷ q ∷ ps) h =
    omega (arith, length-append p (slash ∷ join (q ∷ ps)), length-join (q ∷ ps) refl)

size-keep : (ps : List (List ℕ)) → size (keep ps) ≤ size ps
size-keep [] = omega arith
size-keep (p ∷ ps) = ground (arith, size-keep ps)

size-dropped : (ps : List (List ℕ)) → any is_dropped ps ≡ true → size (keep ps) < size ps
size-dropped [] h = cc
size-dropped (p ∷ ps) h = ground (arith, size-keep ps, size-dropped ps)

keep-all : (ps : List (List ℕ)) → any is_dropped ps ≡ false → keep ps ≡ ps
keep-all [] h = refl
keep-all (p ∷ ps) h = ground (arith, keep-all ps)

dropped-special : (ps : List (List ℕ)) → any is_dropped ps ≡ true → any is_special ps ≡ true
dropped-special [] h = cc
dropped-special (p ∷ ps) h = ground (arith, dropped-special ps)

-- An absolute text has an empty first part.
absolute-special : (text : List ℕ) → is_absolute text ≡ true → any is_special (split text) ≡ true
absolute-special [] h = cc
absolute-special (c ∷ text) h = ground arith

dot-dropped :
    (text : List ℕ) → same_bytes text (codes ".") ≡ true → any is_dropped (split text) ≡ true
dot-dropped text h = rw (same_bytes-eq text (codes ".") h) refl

as_posix-join : (text : List ℕ) → is_none (parts text) ≡ false → as_posix text ≡ join (parts text)
as_posix-join text h = rw h refl

-- a text that loses a part is not the join of the rest
shorter :
    (text : List ℕ)
    → any is_dropped (split text) ≡ true
    → is_none (parts text) ≡ false
    → same_bytes text (join (parts text)) ≡ false
shorter text lost h = elim (Bool-cases (same_bytes text (join (parts text)))) [
  | inr other ↦ other
  | inl same ↦
      let lengths = ap length (same_bytes-eq text (join (parts text)) same) in
      let whole = ap (λ s. suc (length s)) (join-split text) in
      ground (
        arith,
        lengths,
        whole,
        length-join (split text) (split-some text),
        length-join (parts text) h,
        size-dropped (split text) lost,
      )
]

and-none : (a s : Bool) {q : Bool} → q ≡ false → (not a && q && not s) ≡ false
and-none a s h = ground arith

or-lost : (d : Bool) {s : Bool} → s ≡ true → d ≡ (d || not s)
or-lost d h = ground arith

-- the three tests of `is_normalized`, each replaced by what it is known to be
tests-kept :
    (a q s' d s : Bool)
    → (a ≡ true → s ≡ true)
    → q ≡ true
    → s' ≡ s
    → d ≡ false
    → (not a && q && not s') ≡ (d || not s)
tests-kept true q s' d s f g h k = rw (f refl, k) refl
tests-kept false q s' d s f g h k = rw (g, h, k) refl

not_dot :
    (text : List ℕ) → any is_dropped (split text) ≡ false → same_bytes text (codes ".") ≡ false
not_dot text kept = elim (Bool-cases (same_bytes text (codes "."))) [
  | inr other ↦ other
  | inl dot ↦ cc (dot-dropped text dot, kept)
]

-- without parts, the text is normalized if it is a dot
none-test :
    (text : List ℕ)
    → is_none (parts text) ≡ true
    → (not (is_absolute text)
        && same_bytes text (as_posix text)
        && not (any is_special (parts text)))
      ≡ same_bytes text (codes ".")
none-test text nothing = elim (Bool-cases (same_bytes text (codes "."))) [
  | inl dot ↦ rw (same_bytes-eq text (codes ".") dot) refl
  | inr other ↦
      let posix : as_posix text ≡ codes "." = rw nothing refl in
      let fails : same_bytes text (as_posix text) ≡ false = ap (same_bytes text) posix ∙ other in
      and-none (is_absolute text) (any is_special (parts text)) fails ∙ sym other
]

some-not_dot : (text : List ℕ) → is_none (parts text) ≡ false → same_bytes text (codes ".") ≡ false
some-not_dot text something = elim (Bool-cases (same_bytes text (codes "."))) [
  | inr other ↦ other
  | inl dot ↦ cc (ap (λ s. is_none (parts s)) (same_bytes-eq text (codes ".") dot), something)
]

kept-test :
    (text : List ℕ) → any is_dropped (split text) ≡ false → same_bytes text (as_posix text) ≡ true
kept-test text kept =
    let same = keep-all (split text) kept in
    let there : is_none (parts text) ≡ false = ap is_none same ∙ split-some text in
    let whole = as_posix-join text there ∙ ap join same ∙ join-split text in
    ap (same_bytes text) whole ∙ same_bytes_refl text

pub is_normalized-split :
    (text : List ℕ)
    → is_normalized text ≡ (same_bytes text (codes ".") || not (any is_special (split text)))
unfolding is_normalized
is_normalized-split text = elim (Bool-cases (any is_dropped (split text))) [
  | inr kept ↦
      tests-kept (is_absolute text) (same_bytes text (as_posix text)) (any is_special (parts text))
        (same_bytes text (codes ".")) (any is_special (split text)) (absolute-special text)
        (kept-test text kept) (ap (any is_special) (keep-all (split text) kept)) (not_dot text kept)
  | inl lost ↦ elim (Bool-cases (is_none (parts text))) [
    | inl nothing ↦
        none-test text nothing
        ∙ or-lost (same_bytes text (codes ".")) (dropped-special (split text) lost)
    | inr something ↦
        let fails =
          ap (same_bytes text) (as_posix-join text something) ∙ shorter text lost something in
        and-none (is_absolute text) (any is_special (parts text)) fails
        ∙ sym (some-not_dot text something)
        ∙ or-lost (same_bytes text (codes ".")) (dropped-special (split text) lost)
  ]
]

-- What `relative_path` takes: a bounded text without a backslash or a space, which is a dot, or
-- whose parts between the slashes are none of "", "." and "..".
abbrev pub is_relative : String → Bool
is_relative text =
    not (is_blank (codes text))
    && leb (length (codes text)) max_string_length
    && not (any (λ c. c == backslash) (codes text))
    && not (any is_space (codes text))
    && (same_bytes (codes text) (codes ".") || not (any is_special (split (codes text))))

accepted :
    (text : String) (a b : Bool) (c d e : String → Bool)
    → ((require a not_text >> require b long_text >> ok text) >>= λ read.
          require (c read) bad_slash
          >> require (d read) has_space
          >> require (e read) not_normalized
          >> ok read)
        ≡ ok text
      ↔ (a && b && c text && d text && e text) ≡ true
accepted text a b c d e = ground arith

-- `relative_path` returns a text exactly when it is a bounded text without a backslash or a space
-- that is a dot, or whose parts between the slashes are none of "", "." and "..".
pub relative_path-is_relative :
    (text : String) → (relative_path (str text) ≡ ok text) ↔ (is_relative text ≡ true)
unfolding relative_path
relative_path-is_relative text =
    let written = not (is_blank (codes text)) in
    let short = leb (length (codes text)) max_string_length in
    let no_slash = not (any (λ c. c == backslash) (codes text)) in
    let no_space = not (any is_space (codes text)) in
    subst
      (λ e.
        (relative_path (str text) ≡ ok text)
        ↔ ((written && short && no_slash && no_space && e) ≡ true))
      (is_normalized-split (codes text))
      (accepted text written short (λ read. not (any (λ c. c == backslash) (codes read)))
        (λ read. not (any is_space (codes read))) (λ read. is_normalized (codes read)))
