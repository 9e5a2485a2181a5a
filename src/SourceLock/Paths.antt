-- ===== src/SourceLock/Paths.antt =====
-- scripts/source_lock.py: what `relative_path` and `git_ref` use of Python's texts and of
-- PurePosixPath, on the code points of a text.
use yocto_qemu_edu_lab.Common.{
  ℕ, Bool, true, false, ◌&&◌, ◌||◌, not, List, [], ◌∷◌, ◌++◌, if◌then◌else◌, any, codes, same_bytes,
  ◌==◌,
}

abbrev pub slash : ℕ
slash = 47

abbrev pub backslash : ℕ
backslash = 92

abbrev pub starts_with : List ℕ → List ℕ → Bool
starts_with [] text = true
starts_with (c ∷ cs) [] = false
starts_with (c ∷ cs) (d ∷ text) = c == d && starts_with cs text

-- `part in text`
abbrev pub contains : List ℕ → List ℕ → Bool
contains part [] = starts_with part []
contains part (c ∷ text) = starts_with part (c ∷ text) || contains part text

-- `text.endswith(last)`, for one character
abbrev pub ends_with : ℕ → List ℕ → Bool
ends_with last [] = false
ends_with last (c ∷ []) = c == last
ends_with last (c ∷ d ∷ text) = ends_with last (d ∷ text)

abbrev pub onto_first : ℕ → List (List ℕ) → List (List ℕ)
onto_first c [] = (c ∷ []) ∷ []
onto_first c (part ∷ parts) = (c ∷ part) ∷ parts

-- `text.split("/")`, which has an empty part for each slash that none precedes
abbrev pub split : List ℕ → List (List ℕ)
split [] = [] ∷ []
split (c ∷ text) = if c == slash then [] ∷ split text else onto_first c (split text)

abbrev pub is_empty : List ℕ → Bool
is_empty [] = true
is_empty (c ∷ text) = false

-- empty, or `.`
abbrev pub is_dropped : List ℕ → Bool
is_dropped part = is_empty part || same_bytes part (codes ".")

abbrev pub keep : List (List ℕ) → List (List ℕ)
keep [] = []
keep (part ∷ parts) = if is_dropped part then keep parts else part ∷ keep parts

-- `PurePosixPath(text).parts` of a relative text
abbrev pub parts : List ℕ → List (List ℕ)
parts text = keep (split text)

abbrev pub is_absolute : List ℕ → Bool
is_absolute text = starts_with (slash ∷ []) text

-- the parts with a slash between them
abbrev pub join : List (List ℕ) → List ℕ
join [] = []
join (part ∷ []) = part
join (part ∷ next ∷ parts) = part ++ slash ∷ join (next ∷ parts)

abbrev pub is_none : List (List ℕ) → Bool
is_none [] = true
is_none (part ∷ parts) = false

-- `PurePosixPath(text).as_posix()` of a relative text
abbrev pub as_posix : List ℕ → List ℕ
as_posix text = if is_none (parts text) then codes "." else join (parts text)

abbrev pub is_special : List ℕ → Bool
is_special part = is_dropped part || same_bytes part (codes "..")

abbrev pub first_is : List ℕ → List (List ℕ) → Bool
first_is name [] = false
first_is name (part ∷ parts) = same_bytes part name

-- `path.is_absolute() or text != path.as_posix() or any(part in {"", ".", ".."} ...)` does not hold
unfoldable pub is_normalized : List ℕ → Bool
is_normalized text =
    not (is_absolute text) && same_bytes text (as_posix text) && not (any is_special (parts text))

-- `path.startswith(existing + "/") or existing.startswith(path + "/")`
abbrev pub is_below : List ℕ → List ℕ → Bool
is_below existing path = starts_with (existing ++ slash ∷ []) path
