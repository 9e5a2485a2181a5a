-- ===== src/Regex/Language.antt =====
-- The words of a pattern, and the matcher.
use yocto_qemu_edu_lab.Common.{
  ℕ, ◌≡◌, refl, sym, ap, ◌∙◌, ◌↔◌, inl, inr, Bool, true, List, [], ◌∷◌, ◌++◌, arith, and-true,
  if◌then◌else◌, or-true, Bool-cases,
}
use yocto_qemu_edu_lab.Regex.{
  Regex, never, empty, one, seq, alt, star, is_nullable, then_, or_, derivative, matches,
}

pub data Matches : Regex → List ℕ → Type 0 where
  empty_word : {w : List ℕ} → w ≡ [] → Matches empty w
  one_char : {p : ℕ → Bool} {c : ℕ} {w : List ℕ} → p c ≡ true → w ≡ c ∷ [] → Matches (one p) w
  sequence :
      {r s : Regex} {u v w : List ℕ} → w ≡ u ++ v → Matches r u → Matches s v → Matches (seq r s) w
  left : {r s : Regex} {w : List ℕ} → Matches r w → Matches (alt r s) w
  right : {r s : Regex} {w : List ℕ} → Matches s w → Matches (alt r s) w
  stop : {r : Regex} {w : List ℕ} → w ≡ [] → Matches (star r) w
  again :
      {r : Regex} {u v w : List ℕ} {c : ℕ}
      → w ≡ c ∷ u ++ v
      → Matches r (c ∷ u)
      → Matches (star r) v
      → Matches (star r) w

is_nullable_sound : (r : Regex) → is_nullable r ≡ true → Matches r []
unfolding is_nullable
is_nullable_sound never h = cc
is_nullable_sound empty h = empty_word refl
is_nullable_sound (one p) h = cc
is_nullable_sound (seq r s) h =
    let (a, b) = and-true _ _ h in
    sequence {u = []} {v = []} refl (is_nullable_sound r a) (is_nullable_sound s b)
is_nullable_sound (alt r s) h = elim (or-true _ _ h) [
  | inl a ↦ left (is_nullable_sound r a)
  | inr b ↦ right (is_nullable_sound s b)
]
is_nullable_sound (star r) h = stop refl

is_nullable_complete : (r : Regex) (w : List ℕ) → w ≡ [] → Matches r w → is_nullable r ≡ true
unfolding is_nullable
is_nullable_complete never w e m = elim m [ ]
is_nullable_complete empty w e m = refl
is_nullable_complete (one p) w e (one_char h q) = cc
is_nullable_complete (seq r s) w e (sequence {u = []} {v = []} q a b) =
    rw (is_nullable_complete r [] refl a) (is_nullable_complete s [] refl b)
is_nullable_complete (seq r s) w e (sequence {u = []} {v = x ∷ v} q a b) = cc
is_nullable_complete (seq r s) w e (sequence {u = x ∷ u} {v = v} q a b) = cc
is_nullable_complete (alt r s) w e (left m) = rw (is_nullable_complete r w e m)
is_nullable_complete (alt r s) w e (right m) =
    let h : is_nullable s ≡ true = is_nullable_complete s w e m in ground arith
is_nullable_complete (star r) w e m = refl

-- The smart constructors denote the plain ones.
then_sound : (r s : Regex) (w : List ℕ) → Matches (then_ r s) w → Matches (seq r s) w
unfolding then_
then_sound empty s w m = sequence {u = []} refl (empty_word refl) m
then_sound never s w m = elim m [ ]
then_sound r s w m = m

then_complete : (r s : Regex) (w : List ℕ) → Matches (seq r s) w → Matches (then_ r s) w
unfolding then_
then_complete never s w (sequence q a b) = elim a [ ]
then_complete empty s w (sequence {v = v} q (empty_word e) b) = rw (q, e) b
then_complete r s w m = m

or_sound : (r s : Regex) (w : List ℕ) → Matches (or_ r s) w → Matches (alt r s) w
unfolding or_
or_sound never s w m = right m
or_sound r never w m = left m
or_sound r s w m = m

or_complete : (r s : Regex) (w : List ℕ) → Matches (alt r s) w → Matches (or_ r s) w
unfolding or_
or_complete never s w (left m) = elim m [ ]
or_complete never s w (right m) = m
or_complete r never w (left m) = m
or_complete r never w (right m) = elim m [ ]
or_complete r s w m = m

empty-nil : {w : List ℕ} → Matches empty w → w ≡ []
empty-nil (empty_word e) = e

not-never : {w : List ℕ} → ¬ Matches never w
not-never m = elim m [ ]

module _ (c : ℕ) (r s : Regex) {d e : Regex} where
  seq-cons :
      ((w : List ℕ) → Matches d w → Matches r (c ∷ w))
      → ((w : List ℕ) → Matches e w → Matches s (c ∷ w))
      → {w : List ℕ} → Matches (alt (then_ d s) (if is_nullable r then e else never)) w
      → Matches (seq r s) (c ∷ w)
  seq-cons f g {w} (left m) = elim (then_sound d s w m) [
    | sequence {u = u} {v = v} q a b ↦ sequence {u = c ∷ u} {v = v} (ap (λ x. c ∷ x) q) (f u a) b
  ]
  seq-cons f g {w} (right m) = elim (Bool-cases (is_nullable r)) [
    | inl h ↦ sequence {u = []} refl (is_nullable_sound r h) (g w (rw h at m))
    | inr h ↦ absurd (not-never (rw h at m))
  ]

  alt-cons :
      ((w : List ℕ) → Matches d w → Matches r (c ∷ w))
      → ((w : List ℕ) → Matches e w → Matches s (c ∷ w))
      → {w : List ℕ} → Matches (alt d e) w
      → Matches (alt r s) (c ∷ w)
  alt-cons f g {w} (left m) = left (f w m)
  alt-cons f g {w} (right m) = right (g w m)

star-cons :
    (c : ℕ) (r : Regex) {d : Regex}
    → ((w : List ℕ) → Matches d w → Matches r (c ∷ w))
    → {w : List ℕ} → Matches (seq d (star r)) w
    → Matches (star r) (c ∷ w)
star-cons c r f (sequence {u = u} q a b) = again (ap (λ x. c ∷ x) q) (f u a) b

derivative_sound : (c : ℕ) (r : Regex) (w : List ℕ) → Matches (derivative c r) w → Matches r (c ∷ w)
unfolding derivative
derivative_sound c never w m = elim m [ ]
derivative_sound c empty w m = elim m [ ]
derivative_sound c (one p) w m = elim (Bool-cases (p c)) [
  | inl h ↦ one_char h (ap (λ v. c ∷ v) (empty-nil (rw h at m)))
  | inr h ↦ absurd (not-never (rw h at m))
]
derivative_sound c (seq r s) w m =
    seq-cons c r s (derivative_sound c r) (derivative_sound c s)
      (or_sound (then_ (derivative c r) s) _ w m)
derivative_sound c (alt r s) w m =
    alt-cons c r s (derivative_sound c r) (derivative_sound c s)
      (or_sound (derivative c r) (derivative c s) w m)
derivative_sound c (star r) w m =
    star-cons c r (derivative_sound c r) (then_sound (derivative c r) (star r) w m)

derivative_complete :
    (c : ℕ) (r : Regex) (w v : List ℕ) → v ≡ c ∷ w → Matches r v → Matches (derivative c r) w
unfolding derivative
derivative_complete c never w v q m = elim m [ ]
derivative_complete c empty w v q (empty_word e) = cc
derivative_complete c (one p) w v q (one_char {c = d} h e) =
    let same : d ≡ c = cc in let done : w ≡ [] = cc in rw (ap p (sym same) ∙ h) (empty_word done)
derivative_complete c (seq r s) w v q (sequence {u = []} {v = y} e a b) =
    or_complete _ _ w
      (right (rw (is_nullable_complete r [] refl a) (derivative_complete c s w y (sym e ∙ q) b)))
derivative_complete c (seq r s) w v q (sequence {u = d ∷ u} {v = y} e a b) =
    let same : d ≡ c = cc in
    let rest : w ≡ u ++ y = cc in
    or_complete _ _ w (
      left (
        then_complete _ s w
          (sequence rest (derivative_complete c r u (d ∷ u) (ap (λ x. x ∷ u) same) a) b)))
derivative_complete c (alt r s) w v q (left m) =
    or_complete _ _ w (left (derivative_complete c r w v q m))
derivative_complete c (alt r s) w v q (right m) =
    or_complete _ _ w (right (derivative_complete c s w v q m))
derivative_complete c (star r) w v q (stop e) = cc
derivative_complete c (star r) w v q (again {u = u} {v = y} {c = d} e a b) =
    let same : d ≡ c = cc in
    let rest : w ≡ u ++ y = cc in
    then_complete _ (star r) w
      (sequence rest (derivative_complete c r u (d ∷ u) (ap (λ x. x ∷ u) same) a) b)

matches_sound : (r : Regex) (w : List ℕ) → matches r w ≡ true → Matches r w
unfolding matches
matches_sound r [] h = is_nullable_sound r h
matches_sound r (c ∷ w) h = derivative_sound c r w (matches_sound (derivative c r) w h)

matches_complete : (r : Regex) (w : List ℕ) → Matches r w → matches r w ≡ true
unfolding matches
matches_complete r [] m = is_nullable_complete r [] refl m
matches_complete r (c ∷ w) m =
    matches_complete (derivative c r) w (derivative_complete c r w (c ∷ w) refl m)

-- The matcher accepts exactly the words of the pattern.
pub matches_iff : (r : Regex) (w : List ℕ) → (matches r w ≡ true) ↔ Matches r w
matches_iff r w = (matches_sound r w, matches_complete r w)
