-- ===== src/SourceLock/Validate.antt =====
-- scripts/source_lock.py: `validate_lock`. `urlsplit` of Python's library is an argument; a set is
-- walked in the order in which it is written.
use Prim.Native.String
use yocto_qemu_edu_lab.Common.{
  ℕ, String, str_eq, member, lookup, Bool, false, ◌&&◌, ◌||◌, not, Option, none, some, List, [],
  ◌∷◌, any, all, codes, same_bytes, ok, err, ◌>>=◌, ◌>>◌, ◌==◌,
}
use yocto_qemu_edu_lab.Json.{Json, int, pos, str, arr, Fields, items}
use yocto_qemu_edu_lab.Regex.{fullmatch}
use yocto_qemu_edu_lab.SourceLock.Paths.{parts, is_below}
use yocto_qemu_edu_lab.SourceLock.Values.{
  bad_version, bad_token, bad_project, bad_system, overlaps_layers, no_sources, bad_id,
  duplicate_id, bad_type, bad_url, other_url, other_branch, other_release, bad_format, bad_commit,
  duplicate_path, overlapping_path, bad_source_set, no_part, url_error, Checked, require, item_at,
  exact_keys, object_value, string_value, string_list, relative_path, path_under, git_ref,
  root_keys, release_keys, build_keys, source_keys, source_ids, source_urls, token_pattern,
  source_id_pattern, commit_pattern,
}

infixl 65 ◌▸◌
abbrev pub ◌▸◌ : String → String → String
s ▸ t = String.◌++◌ s t

-- what `validate_lock` reads of a split URL
pub record Url : Type 0 where
  pub scheme : String
  pub has_hostname : Bool
  pub has_username : Bool
  pub has_password : Bool
  pub has_query : Bool
  pub has_fragment : Bool

-- `value == text`
abbrev pub equals : Json → String → Bool
equals (str s) text = str_eq s text
equals _ text = false

abbrev pub is_version : Json → Bool
is_version (int (pos n)) = n == 1
is_version _ = false

abbrev pub token_text : Json → Checked Unit
token_text value = string_value value >>= λ text. require (fullmatch token_pattern text) bad_token

abbrev pub each {ℓ} : {A : Type ℓ} → (A → Checked Unit) → List A → Checked Unit
each test [] = ok tt
each test (x ∷ xs) = test x >> each test xs

abbrev pub token_fields : List String → Fields → Checked Unit
token_fields fields table = each (λ f. item_at f table >>= token_text) fields

-- the version and the series, which the sources are compared with
abbrev pub release_names : Fields → Checked (String × String)
release_names release = item_at "version" release >>= string_value >>= λ version.
    item_at "series" release >>= string_value >>= λ series. ok (version, series)

unfoldable pub validate_release : Json → Checked (String × String)
validate_release value = object_value value >>= λ release.
    exact_keys release release_keys >>= λ exact. token_fields release_keys release >>= λ tokens.
    item_at "project" release
    >>= (λ project. require (equals project "yocto") bad_project)
    >>= λ yocto. release_names release

-- `PurePosixPath(build_dir).parts[0] == "layers"`, which raises where there is no part
abbrev pub outside_layers : List (List ℕ) → Checked Unit
outside_layers [] = err no_part
outside_layers (part ∷ parts) = require (not (same_bytes part (codes "layers"))) overlaps_layers

unfoldable pub validate_build : Json → Checked Unit
validate_build value = object_value value >>= λ build.
    exact_keys build build_keys
    >> (item_at "build_system" build >>= λ system.
        require (equals system "openembedded") bad_system)
    >> (item_at "environment_script" build >>= relative_path)
    >> (item_at "bitbake_bin" build >>= relative_path)
    >> (item_at "build_dir" build >>= relative_path >>= λ dir. outside_layers (parts (codes dir)))
    >> token_fields ("distro" ∷ "machine" ∷ []) build
    >> (item_at "targets" build
        >>= string_list
        >>= each (λ target. require (fullmatch token_pattern target) bad_token))
    >> (item_at "layers" build
        >>= string_list
        >>= each (λ layer. relative_path (str layer) >> ok tt))

-- The ids and the paths of the sources so far, with the newest first.
pub record Seen : Type 0 where
  pub ids : List String
  pub paths : List String

abbrev pub overlaps : String → String → Bool
overlaps path existing =
    is_below (codes existing) (codes path) || is_below (codes path) (codes existing)

abbrev pub is_https : Url → Bool
is_https url =
    str_eq url.scheme "https"
    && url.has_hostname
    && not url.has_username
    && not url.has_password
    && not url.has_query
    && not url.has_fragment

abbrev pub is_source_url : String → Json → Bool
is_source_url i value = elim (lookup i source_urls) [ none ↦ false | some url ↦ equals value url ]

abbrev pub in_order : List (Checked Unit) → Checked Unit
in_order [] = ok tt
in_order (check ∷ checks) = check >>= λ done. in_order checks

abbrev pub read_id : Fields → Checked String
read_id source = item_at "id" source >>= string_value

abbrev pub read_path : Fields → Checked String
read_path source = item_at "path" source >>= path_under "layers"

abbrev pub branch_check : String → String → Fields → Checked Unit
branch_check series i source =
    item_at "branch_ref" source >>= (λ value. git_ref value "refs/heads/") >>= λ branch.
    require (str_eq i "bitbake" || str_eq branch ("refs/heads/" ▸ series)) other_branch

abbrev pub release_check : String → Fields → Checked Unit
release_check version source =
    item_at "release_ref" source >>= (λ value. git_ref value "refs/tags/") >>= λ tag.
    require (str_eq tag ("refs/tags/yocto-" ▸ version)) other_release

abbrev pub commit_check : Fields → Checked Unit
commit_check source = item_at "commit" source >>= string_value >>= λ commit.
    require (fullmatch commit_pattern commit) bad_commit

abbrev pub required_check : Fields → Checked Unit
required_check source =
    item_at "required_paths" source
    >>= string_list
    >>= each (λ required. relative_path (str required) >> ok tt)

abbrev pub path_checks : Seen → String → Fields → List (Checked Unit)
path_checks seen path source =
    require (not (member path seen.paths)) duplicate_path
    ∷ require (not (any (overlaps path) seen.paths)) overlapping_path
    ∷ required_check source
    ∷ []

abbrev pub at_least_one : List Json → Checked (List Json)
at_least_one [] = err no_sources
at_least_one (value ∷ values) = ok (value ∷ values)

abbrev pub source_values : Json → Checked (List Json)
source_values (arr vs) = at_least_one (items vs)
source_values _ = err no_sources

-- `ids != SOURCE_IDS`
abbrev pub is_source_set : List String → Bool
is_source_set ids = all (λ i. member i source_ids) ids && all (λ i. member i ids) source_ids

module _ (urlsplit : String → Option Url) where
  abbrev pub validate_url : String → Json → Checked Unit
  validate_url i value = string_value value >>= λ text. elim (urlsplit text) [
    | none ↦ err url_error
    | some url ↦ require (is_https url) bad_url >> require (is_source_url i value) other_url
  ]

  abbrev pub url_check : String → Fields → Checked Unit
  url_check i source = item_at "url" source >>= validate_url i

  -- the checks between the id and the path, in order
  abbrev pub source_checks : String → String → Seen → String → Fields → List (Checked Unit)
  source_checks version series seen i source =
      require (fullmatch source_id_pattern i) bad_id
      ∷ require (not (member i seen.ids)) duplicate_id
      ∷ (item_at "type" source >>= λ type. require (equals type "git") bad_type)
      ∷ url_check i source
      ∷ branch_check series i source
      ∷ release_check version source
      ∷ (item_at "object_format" source >>= λ format. require (equals format "sha1") bad_format)
      ∷ commit_check source
      ∷ []

  unfoldable pub validate_source : String → String → Seen → Fields → Checked Seen
  validate_source version series seen source = exact_keys source source_keys >>= λ exact.
      read_id source >>= λ i. in_order (source_checks version series seen i source) >>= λ fine.
      read_path source >>= λ path. in_order (path_checks seen path source) >>= λ separate.
      ok (record { ids = i ∷ seen.ids; paths = path ∷ seen.paths })

  unfoldable pub validate_sources : String → String → List Json → Seen → Checked Seen
  unfolding validate_source
  validate_sources version series [] seen = ok seen
  validate_sources version series (value ∷ values) seen = object_value value >>= λ source.
      validate_source version series seen source >>= λ next.
      validate_sources version series values next

  unfoldable pub validate_lock : Fields → Checked Unit
  unfolding validate_sources
  validate_lock lock = exact_keys lock root_keys >>= λ exact.
      item_at "schema_version" lock
      >>= (λ version. require (is_version version) bad_version)
      >>= λ known. item_at "release" lock >>= validate_release >>= λ release.
          item_at "build" lock >>= validate_build >>= λ build.
          item_at "sources" lock >>= source_values >>= λ values.
          validate_sources release.0 release.1 values (record { ids = []; paths = [] }) >>= λ seen.
          require (is_source_set seen.ids) bad_source_set
