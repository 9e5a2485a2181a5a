-- ===== src/LabConfig/Accepted.antt =====
-- scripts/lab_config.py: the manifests that `validate_manifest` accepts.
use yocto_qemu_edu_lab.Common.{
  ℕ, String, str_eq, eq_iff, member, ◌≡◌, ap, subst, ◌∙◌, Bool, true, false, ◌&&◌, not, some, List,
  any, arith, ok, ◌>>=◌, >>=-eq-ok, ensure, ensure-true, in_turn, in_turn-ok, result_or,
  is_ascending, same_list, sorted, same_list-sorted, and-true,
}
use yocto_qemu_edu_lab.Json.{Json, str, obj, Fields, get}
use yocto_qemu_edu_lab.Regex.{fullmatch}
use yocto_qemu_edu_lab.LabConfig.Values.{
  other_id, item_at, exact_keys, object_value, string_list, is_distinct, bad_evidence_profile,
  packages_not_sorted,
}
use yocto_qemu_edu_lab.LabConfig.Profiles.{lab_id_pattern, supply_chain_keys}
use yocto_qemu_edu_lab.LabConfig.Fields.{text_at, path_at, filename_check}
use yocto_qemu_edu_lab.LabConfig.Manifest.{
  validate_runtime, validate_supply_chain, validate_build, validate_manifest, package_list,
  forbidden_checks, build_checks, identity_checks,
}
use yocto_qemu_edu_lab.LabConfig.Reads.{object_value-obj, item_at-get, text_at-get, object_at-get}
use yocto_qemu_edu_lab.LabConfig.Ruled.{
  FollowsProfile, FollowsDevelopment, validate_runtime-FollowsProfile,
  validate_development-FollowsDevelopment,
}

-- The packages of the supply chain: names in order, the required ones apart from the forbidden.
pub record SortsPackages (lab : Fields) (forbidden : List String) : Type 0 where
  pub supply : Fields
  pub supply_at : get "supply_chain" lab ≡ some (obj supply)
  pub required : List String
  pub required_at : (item_at "required_packages" supply >>= package_list) ≡ ok required
  pub forbidden_at : (item_at "forbidden_packages" supply >>= string_list) ≡ ok forbidden
  pub required_sorted : is_ascending required ≡ true
  pub required_distinct : is_distinct required ≡ true
  pub forbidden_sorted : is_ascending forbidden ≡ true
  pub disjoint : any (λ name. member name forbidden) required ≡ false

not-false : (b : Bool) → not b ≡ true → b ≡ false
not-false b h = ground arith

pub validate_supply_chain-SortsPackages :
    (lab : Fields) (forbidden : List String)
    → validate_supply_chain lab ≡ ok forbidden
    → SortsPackages lab forbidden
unfolding validate_supply_chain
validate_supply_chain-SortsPackages lab wanted h =
    let (supply, found, h1) = >>=-eq-ok (item_at "supply_chain" lab >>= object_value) _ h in
    let (_, exact, h2) = >>=-eq-ok (exact_keys supply supply_chain_keys) _ h1 in
    let (profile, read, h3) = >>=-eq-ok (text_at "evidence_profile" supply) _ h2 in
    let (_, known, h4) =
      >>=-eq-ok (ensure (str_eq profile "spdx3-image-v1") bad_evidence_profile) _ h3 in
    let (_, named, h5) = >>=-eq-ok (path_at "evidence_filename" supply >>= filename_check) _ h4 in
    let (names, listed, h6) =
      >>=-eq-ok (item_at "required_packages" supply >>= package_list) _ h5 in
    let (_, ordered, h7) =
      >>=-eq-ok (ensure (same_list names (sorted names) && is_distinct names) packages_not_sorted) _
        h6 in
    let (forbidden, banned, h8) =
      >>=-eq-ok (item_at "forbidden_packages" supply >>= string_list) _ h7 in
    let (_, fine, h9) = >>=-eq-ok (in_turn (forbidden_checks names forbidden)) _ h8 in
    let (few, (in_order, (tokens, (apart, _)))) =
      in_turn-ok (forbidden_checks names forbidden) fine in
    let (is_sorted, is_single) =
      and-true (same_list names (sorted names)) (is_distinct names) (ensure-true _ _ ordered) in
    subst (SortsPackages lab) (ap (result_or wanted) h9) (record {
      supply = supply;
      supply_at = object_at-get "supply_chain" lab found;
      required = names;
      required_at = listed;
      forbidden_at = banned;
      required_sorted = same_list-sorted names is_sorted;
      required_distinct = is_single;
      forbidden_sorted = same_list-sorted forbidden (ensure-true _ _ in_order);
      disjoint = not-false _ (ensure-true _ _ apart);
    })

-- What a valid manifest says.
pub record IsRuled (lab : Fields) (i : String) : Type 0 where
  pub build : Fields
  pub forbidden : List String
  pub id_at : get "id" lab ≡ some (str i)
  pub build_at : get "build" lab ≡ some (obj build)
  pub profile : FollowsProfile lab build
  pub packages : SortsPackages lab forbidden
  pub development : FollowsDevelopment lab i forbidden

validate_build-obj : (v : Json) {build : Fields} → validate_build v ≡ ok build → v ≡ obj build
unfolding validate_build
validate_build-obj v {build = wanted} h =
    let (build, opened, h1) = >>=-eq-ok (object_value v) _ h in
    let (_, fine, h2) = >>=-eq-ok (in_turn (build_checks build)) _ h1 in
    object_value-obj v opened ∙ ap obj (ap (result_or wanted) h2)

id_check-get :
    (i : String) (lab : Fields)
    → (text_at "id" lab >>= λ t. ensure (str_eq t i && fullmatch lab_id_pattern t) other_id) ≡ ok tt
    → get "id" lab ≡ some (str i)
id_check-get i lab h =
    let (t, read, h1) = >>=-eq-ok (text_at "id" lab) _ h in
    let (same, _) = and-true (str_eq t i) _ (ensure-true _ _ h1) in
    text_at-get "id" lab read ∙ ap (λ u. some (str u)) ((eq_iff t i).0 same)

-- A manifest that is accepted has the id that the index gives it; its fields have the values that
-- the rules of the two profiles that it names give them; its development builds in build-sdk-<id>;
-- the required and the forbidden packages are sorted, none is in both, no required one is there
-- twice, and the recipe of the development is forbidden in the image.
pub validate_manifest-IsRuled :
    (category : ℕ → String) (lab : Fields) (i : String)
    → validate_manifest category lab i ≡ ok tt
    → IsRuled lab i
unfolding validate_manifest
validate_manifest-IsRuled category lab i h =
    let (_, identity, h1) = >>=-eq-ok (in_turn (identity_checks category i lab)) _ h in
    let (build, built, h2) = >>=-eq-ok (item_at "build" lab >>= validate_build) _ h1 in
    let (value, there, opened) = >>=-eq-ok (item_at "build" lab) _ built in
    let (_, run, h3) = >>=-eq-ok (validate_runtime lab build) _ h2 in
    let (forbidden, supplied, h4) = >>=-eq-ok (validate_supply_chain lab) _ h3 in
    let (exact, (version, (named, _))) = in_turn-ok (identity_checks category i lab) identity in
    record {
      build = build;
      forbidden = forbidden;
      id_at = id_check-get i lab named;
      build_at = item_at-get "build" lab there ∙ ap some (validate_build-obj value opened);
      profile = validate_runtime-FollowsProfile lab build run;
      packages = validate_supply_chain-SortsPackages lab forbidden supplied;
      development = validate_development-FollowsDevelopment i forbidden lab h4;
    }
