-- ===== src/LabConfig/Declared.antt =====
-- scripts/lab_config.py: the indexes that `validate_index` accepts.
use yocto_qemu_edu_lab.Common.{
  String, str_eq, eq_iff, member, ◌≡◌, refl, sym, ap, subst, ◌∙◌, Bool, true, false, ◌&&◌, ◌||◌,
  not, List, [], ◌∷◌, map, all, arith, ok, ◌>>=◌, >>=-eq-ok, ensure, ensure-true, in_turn,
  in_turn-ok, result_or, and-true,
}
use yocto_qemu_edu_lab.Json.{Json, null, bool, int, float, str, arr, obj, Fields}
use yocto_qemu_edu_lab.Regex.{fullmatch}
use yocto_qemu_edu_lab.LabConfig.Values.{
  item_at, exact_keys, object_value, is_distinct, path_under, bad_id,
}
use yocto_qemu_edu_lab.LabConfig.Profiles.{
  index_keys, index_entry_keys, lab_id_pattern, sha256_pattern,
}
use yocto_qemu_edu_lab.LabConfig.Fields.{text_at}
use yocto_qemu_edu_lab.LabConfig.Index.{
  Seen, validate_entry, validate_entries, validate_index, id_checks, path_checks, digest_check,
  version_check, entry_values,
}

-- What an accepted entry declares.
pub record Entry : Type 0 where
  pub lab : String
  pub path : String
  pub digest : String

abbrev pub is_entry : Entry → Bool
is_entry e = fullmatch lab_id_pattern e.lab && fullmatch sha256_pattern e.digest

-- the entry that an object is
pub record Holds (entry : Fields) (e : Entry) : Type 0 where
  pub lab : text_at "id" entry ≡ ok e.lab
  pub path : (item_at "manifest" entry >>= path_under "config") ≡ ok e.path
  pub digest : text_at "sha256" entry ≡ ok e.digest

abbrev pub new_in : Seen → Entry → Bool
new_in seen e = not (member e.lab seen.ids) && not (member e.path seen.paths)

pub validate_entry-Holds :
    (seen : Seen) (entry : Fields) {next : Seen}
    → validate_entry seen entry ≡ ok next
    → (e : Entry) × Holds entry e
      × (is_entry e ≡ true)
      × (new_in seen e ≡ true)
      × (next ≡ record { ids = e.lab ∷ seen.ids; paths = e.path ∷ seen.paths })
unfolding validate_entry
validate_entry-Holds seen entry {next} h =
    let (_, exact, h1) = >>=-eq-ok (exact_keys entry index_entry_keys) _ h in
    let (i, named, h2) = >>=-eq-ok (text_at "id" entry) _ h1 in
    let (_, fine, h3) = >>=-eq-ok (in_turn (id_checks seen i)) _ h2 in
    let (path, placed, h4) = >>=-eq-ok (item_at "manifest" entry >>= path_under "config") _ h3 in
    let (_, apart, h5) = >>=-eq-ok (in_turn (path_checks seen path)) _ h4 in
    let (_, hashed, h6) = >>=-eq-ok (digest_check entry) _ h5 in
    let (digest, read, matched) = >>=-eq-ok (text_at "sha256" entry) _ hashed in
    let (is_id, (new, _)) = in_turn-ok (id_checks seen i) fine in
    let (under, (free, _)) = in_turn-ok (path_checks seen path) apart in
    (
      record { lab = i; path = path; digest = digest },
      record { lab = named; path = placed; digest = read },
      rw (ensure-true _ _ is_id, ensure-true _ _ matched) refl,
      rw (ensure-true _ _ new, ensure-true _ _ free) refl,
      sym (ap (result_or next) h6),
    )

-- The entries of an index, in order.
pub data Lists : List Json → List Entry → Type 0 where
  no_entry : Lists [] []
  entry :
      {vs : List Json} {es : List Entry} (value : Fields) (e : Entry)
      → Holds value e
      → Lists vs es
      → Lists (obj value ∷ vs) (e ∷ es)

abbrev pub labs_of : List Entry → List String
labs_of es = map (λ e. e.lab) es

abbrev pub paths_of : List Entry → List String
paths_of es = map (λ e. e.path) es

-- What the loop has read, and the ids that it leaves.
record Read (values : List Json) (seen left : Seen) : Type 0 where
  entries : List Entry
  lists : Lists values entries
  fine : all is_entry entries ≡ true
  new : all (new_in seen) entries ≡ true
  ids : is_distinct (labs_of entries) ≡ true
  paths : is_distinct (paths_of entries) ≡ true
  kept : (i : String) → member i left.ids ≡ (member i (labs_of entries) || member i seen.ids)

new_one :
    (i p j q : String) (ids paths : List String)
    → (not (member j (i ∷ ids)) && not (member q (p ∷ paths))) ≡ true
    → ((not (member j ids) && not (member q paths)) ≡ true)
      × (str_eq i j ≡ false)
      × (str_eq p q ≡ false)
new_one i p j q ids paths h = ground (arith, eq_iff i j, eq_iff j i, eq_iff p q, eq_iff q p)

new_in-split :
    (i p : String) (seen : Seen) (es : List Entry)
    → all (new_in (record { ids = i ∷ seen.ids; paths = p ∷ seen.paths })) es ≡ true
    → (all (new_in seen) es ≡ true)
      × (member i (labs_of es) ≡ false)
      × (member p (paths_of es) ≡ false)
new_in-split i p seen [] h = (refl, refl, refl)
new_in-split i p seen (e ∷ es) h =
    let (here, later) =
      and-true (new_in (record { ids = i ∷ seen.ids; paths = p ∷ seen.paths }) e) _ h in
    let (old, other_lab, other_path) = new_one i p e.lab e.path seen.ids seen.paths here in
    let (olds, no_lab, no_path) = new_in-split i p seen es later in
    (rw (old, olds) refl, rw (other_lab, no_lab) refl, rw (other_path, no_path) refl)

object_value-obj : (v : Json) {fields : Fields} → object_value v ≡ ok fields → v ≡ obj fields
unfolding object_value
object_value-obj (obj fs) h = cc
object_value-obj null h = cc
object_value-obj (bool b) h = cc
object_value-obj (int n) h = cc
object_value-obj (float s) h = cc
object_value-obj (arr vs) h = cc
object_value-obj (str s) h = cc

or_false : (b : Bool) → (b || false) ≡ true → b ≡ true
or_false b h = ground arith

kept_cons :
    (i j : String) (ids labs left : List String)
    → member j left ≡ (member j labs || member j (i ∷ ids))
    → member j left ≡ (member j (i ∷ labs) || member j ids)
kept_cons i j ids labs left h = ground arith

validate_entries-Read :
    (values : List Json) (seen : Seen) {left : Seen}
    → validate_entries values seen ≡ ok left
    → Read values seen left
unfolding validate_entries
validate_entries-Read [] seen {left} h = subst (Read [] seen) (ap (result_or left) h) (record {
  entries = [];
  lists = no_entry;
  fine = refl;
  new = refl;
  ids = refl;
  paths = refl;
  kept = λ i. refl;
})
validate_entries-Read (value ∷ values) seen {left} h =
    let (fields, opened, h1) = >>=-eq-ok (object_value value) _ h in
    let (next, accepted, rest) = >>=-eq-ok (validate_entry seen fields) _ h1 in
    let (e, holds, good, new, made) = validate_entry-Holds seen fields accepted in
    let r = validate_entries-Read values next rest in
    let (olds, no_lab, no_path) =
      new_in-split e.lab e.path seen r.entries
        (subst (λ n. all (new_in n) r.entries ≡ true) made r.new) in
    record {
      entries = e ∷ r.entries;
      lists =
          subst (λ v. Lists (v ∷ values) (e ∷ r.entries)) (sym (object_value-obj value opened))
            (entry fields e holds r.lists);
      fine = rw (good, r.fine) refl;
      new = rw (new, olds) refl;
      ids = rw (no_lab, r.ids) refl;
      paths = rw (no_path, r.paths) refl;
      kept = λ i.
          kept_cons e.lab i seen.ids (labs_of r.entries) left.ids
            (r.kept i ∙ ap (λ n. member i (labs_of r.entries) || member i n.ids) made);
    }

-- What an accepted index declares.
pub record Declared (index : Fields) : Type 0 where
  pub values : List Json
  pub listed : (item_at "labs" index >>= entry_values) ≡ ok values
  pub entries : List Entry
  pub lists : Lists values entries
  pub fine : all is_entry entries ≡ true
  pub ids : is_distinct (labs_of entries) ≡ true
  pub paths : is_distinct (paths_of entries) ≡ true
  pub default_lab : String
  pub default_id : text_at "default_lab" index ≡ ok default_lab
  pub default_listed : member default_lab (labs_of entries) ≡ true

-- In an index that is accepted every entry gives an id of small letters, digits and dashes, a
-- path below config/ and a SHA-256 in small hexadecimal digits; no id and no path is there twice;
-- and the default lab is one of the ids.
pub validate_index-Declared : (index : Fields) → validate_index index ≡ ok tt → Declared index
unfolding validate_index
validate_index-Declared index h =
    let (_, exact, h1) = >>=-eq-ok (exact_keys index index_keys) _ h in
    let (_, known, h2) = >>=-eq-ok (version_check index) _ h1 in
    let (default_lab, named, h3) = >>=-eq-ok (text_at "default_lab" index) _ h2 in
    let (_, is_id, h4) = >>=-eq-ok (ensure (fullmatch lab_id_pattern default_lab) bad_id) _ h3 in
    let (values, listed, h5) = >>=-eq-ok (item_at "labs" index >>= entry_values) _ h4 in
    let (seen, walked, h6) =
      >>=-eq-ok (validate_entries values (record { ids = []; paths = [] })) _ h5 in
    let r = validate_entries-Read values (record { ids = []; paths = [] }) walked in
    record {
      values = values;
      listed = listed;
      entries = r.entries;
      lists = r.lists;
      fine = r.fine;
      ids = r.ids;
      paths = r.paths;
      default_lab = default_lab;
      default_id = named;
      default_listed =
          or_false (member default_lab (labs_of r.entries))
            (sym (r.kept default_lab) ∙ ensure-true _ _ h6);
    }
