-- ===== src/SourceLock/Spec.antt =====
-- scripts/source_lock.py: what a validated lock promises, said of its values and not of the loop
-- that validates them.
use yocto_qemu_edu_lab.Common.{
  String, str_eq, member, lookup, Bool, true, false, ◌&&◌, ◌||◌, not, Option, none, some, List, [],
  ◌∷◌, map, any, all,
}
use yocto_qemu_edu_lab.Json.{Json, str, Fields, get}
use yocto_qemu_edu_lab.Regex.{fullmatch}
use yocto_qemu_edu_lab.SourceLock.Values.{source_ids, source_urls, commit_pattern, distinct}
use yocto_qemu_edu_lab.SourceLock.Validate.{◌▸◌, overlaps}

abbrev pub text_of : Option Json → String
text_of (some (str s)) = s
text_of _ = ""

abbrev pub text_at : String → Fields → String
text_at key fields = text_of (get key fields)

abbrev pub id_of : Fields → String
id_of = text_at "id"

abbrev pub path_of : Fields → String
path_of = text_at "path"

-- no two paths are equal, and none is below another
abbrev pub apart : List String → Bool
apart [] = true
apart (path ∷ paths) = not (member path paths) && not (any (overlaps path) paths) && apart paths

abbrev pub found_is : Option String → Fields → Bool
found_is none source = false
found_is (some url) source = str_eq (text_at "url" source) url

-- the upstream URL of an id
abbrev pub has_url : String → Fields → Bool
has_url i source = found_is (lookup i source_urls) source

-- the upstream of its id, the branch of the series, which bitbake need not have, the tag of the
-- release, and a full commit
abbrev pub is_locked : String → String → Fields → Bool
is_locked version series source =
    has_url (id_of source) source
    && (str_eq (id_of source) "bitbake"
        || str_eq (text_at "branch_ref" source) ("refs/heads/" ▸ series))
    && str_eq (text_at "release_ref" source) ("refs/tags/yocto-" ▸ version)
    && fullmatch commit_pattern (text_at "commit" source)

unfoldable pub locked : String → String → List Fields → Bool
locked version series sources =
    distinct (map id_of sources)
    && all (λ i. member i source_ids) (map id_of sources)
    && all (λ i. member i (map id_of sources)) source_ids
    && apart (map path_of sources)
    && all (is_locked version series) sources
