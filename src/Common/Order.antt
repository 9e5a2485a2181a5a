-- ===== src/Common/Order.antt =====
-- Python's order of texts and `sorted`, as an insertion sort.
use Prim.Native.Nat.{ℕ}
use Prim.Native.String.{String}
use Prim.Native.Char.{code}
use mathlib.Core.Path.{◌≡◌, refl}
use mathlib.Core.Bool.{Bool, true, false, ◌&&◌, ◌||◌}
use mathlib.Core.List.{List, [], ◌∷◌}
use native.Mathlib.Omega.{arith}
use text.Mathlib.Text.{◌==◌ as str_eq}
use text.Mathlib.TextEquality.{eq_iff, Char-path}
use yocto_qemu_edu_lab.Common.Tests.{ltb, ◌==◌, if◌then◌else◌}
use yocto_qemu_edu_lab.Common.Text.{codes}

-- by code points
abbrev pub codes_le : List ℕ → List ℕ → Bool
codes_le [] text = true
codes_le (c ∷ s) [] = false
codes_le (c ∷ s) (d ∷ t) = ltb c d || c == d && codes_le s t

unfoldable pub text_le : String → String → Bool
text_le s t = codes_le (codes s) (codes t)

unfoldable pub put_in : String → List String → List String
put_in s [] = s ∷ []
put_in s (t ∷ ts) = if text_le s t then s ∷ t ∷ ts else t ∷ put_in s ts

unfoldable pub sorted : List String → List String
unfolding put_in text_le
sorted [] = []
sorted (s ∷ ts) = put_in s (sorted ts)

abbrev pub same_list : List String → List String → Bool
same_list [] [] = true
same_list (s ∷ ss) (t ∷ ts) = str_eq s t && same_list ss ts
same_list _ _ = false

-- each text is at most the next
unfoldable pub is_ascending : List String → Bool
is_ascending [] = true
is_ascending (s ∷ []) = true
is_ascending (s ∷ t ∷ ts) = text_le s t && is_ascending (t ∷ ts)

codes_le_total : (s t : List ℕ) → codes_le s t ≡ false → codes_le t s ≡ true
codes_le_total [] t h = cc
codes_le_total (c ∷ s) [] h = refl
codes_le_total (c ∷ s) (d ∷ t) h = ground (arith, codes_le_total s t)

pub text_le_total : (s t : String) → text_le s t ≡ false → text_le t s ≡ true
unfolding text_le
text_le_total s t h = codes_le_total (codes s) (codes t) h

-- What stands first after an insertion into a list that some text does not exceed.
put_in-is_ascending :
    (s : String) (ts : List String) → is_ascending ts ≡ true → is_ascending (put_in s ts) ≡ true
unfolding is_ascending put_in
put_in-is_ascending s [] h = refl
put_in-is_ascending s (t ∷ []) h = ground (arith, text_le_total s t)
put_in-is_ascending s (t ∷ u ∷ ts) h =
    ground (arith, text_le_total s t, text_le_total s u, put_in-is_ascending s (u ∷ ts))

pub sorted-is_ascending : (ts : List String) → is_ascending (sorted ts) ≡ true
unfolding sorted is_ascending
sorted-is_ascending [] = refl
sorted-is_ascending (s ∷ ts) = put_in-is_ascending s (sorted ts) (sorted-is_ascending ts)

same_list-eq : (ss ts : List String) → same_list ss ts ≡ true → ss ≡ ts
same_list-eq [] [] h = refl
same_list-eq [] (t ∷ ts) h = cc
same_list-eq (s ∷ ss) [] h = cc
same_list-eq (s ∷ ss) (t ∷ ts) h = ground (arith, eq_iff s t, same_list-eq ss ts)

-- A list that sorting leaves as it is is ascending.
pub same_list-sorted : (ts : List String) → same_list ts (sorted ts) ≡ true → is_ascending ts ≡ true
same_list-sorted ts h = rw (same_list-eq ts (sorted ts) h) (sorted-is_ascending ts)

codes_le_trans : (s t u : List ℕ) → codes_le s t ≡ true → codes_le t u ≡ true → codes_le s u ≡ true
codes_le_trans [] t u h k = refl
codes_le_trans (a ∷ s) (b ∷ t) (c ∷ u) h k = ground (arith, codes_le_trans s t u)
codes_le_trans (a ∷ s) [] u h k = cc
codes_le_trans (a ∷ s) (b ∷ t) [] h k = cc

pub text_le_trans : (s t u : String) → text_le s t ≡ true → text_le t u ≡ true → text_le s u ≡ true
unfolding text_le
text_le_trans s t u h k = codes_le_trans (codes s) (codes t) (codes u) h k

-- one step of the two comparisons
codes_le_both :
    (a b : ℕ) (s t : List ℕ)
    → codes_le (a ∷ s) (b ∷ t) ≡ true
    → codes_le (b ∷ t) (a ∷ s) ≡ true
    → (a ≡ b) × (codes_le s t ≡ true) × (codes_le t s ≡ true)
codes_le_both a b s t h k = (ground arith, ground arith, ground arith)

pub text_le_antisym : (s t : String) → text_le s t ≡ true → text_le t s ≡ true → s ≡ t
unfolding text_le
text_le_antisym String.[] String.[] h k = refl
text_le_antisym String.[] (String.◌∷◌ d t) h k = cc
text_le_antisym (String.◌∷◌ c s) String.[] h k = cc
text_le_antisym (String.◌∷◌ c s) (String.◌∷◌ d t) h k =
    let (same, below, above) = codes_le_both (code c) (code d) (codes s) (codes t) h k in
    λ i. String.◌∷◌ (Char-path c d same i) (text_le_antisym s t below above i)
