-- ===== src/Shape/Parse.antt =====
-- scripts/lab_config.py: `duplicate_guard`, `reject_constant` and `parse_json_bytes`, which
-- scripts/source_lock.py has under other names. The decoder of UTF-8, the reader of JSON and the
-- digest are parameters: the reader gives the tree as it is written, a key that is there twice
-- included, and the guard runs over the tree from within, as the reader calls it.
use yocto_qemu_edu_lab.Common.{
  ℕ, String, Bool, true, false, not, Option, none, some, List, [], ◌∷◌, member, leb, length, Result,
  ok, err, ◌>>=◌,
}
use yocto_qemu_edu_lab.Json.{Json, arr, obj, Items, nil, cons, Fields, end, field}
use yocto_qemu_edu_lab.Shape.Walk.{ShapeError, Shaped, validate_json_shape}

pub data ParseError : Type 0 where
  too_long unreadable bad_constant duplicate_key not_object : ParseError
  bad_shape : ShapeError → ParseError

abbrev pub Parsed : Type 0 → Type 0
Parsed = Result ParseError

-- what `json.loads` finds: a constant such as NaN is handed to `reject_constant`
pub data Loaded : Type 0 where
  invalid constant : Loaded
  tree : Json → Loaded

abbrev pub max_json_bytes : ℕ
max_json_bytes = 65_536

abbrev pub permit : Bool → ParseError → Parsed Unit
permit true e = ok tt
permit false e = err e

-- `duplicate_guard`, over the pairs of one object that are left, after those that are taken
abbrev pub duplicate_guard : List String → Fields → Parsed Fields
duplicate_guard taken end = ok end
duplicate_guard taken (field k v fs) = permit (not (member k taken)) duplicate_key >>= λ new.
    duplicate_guard (k ∷ taken) fs >>= λ rest. ok (field k v rest)

-- the guard at every object of a tree, the inner ones first
unfoldable mutual
  pub guarded : Json → Parsed Json
  guarded (arr vs) = guarded_items vs >>= λ made. ok (arr made)
  guarded (obj fs) = guarded_fields fs >>= λ made. duplicate_guard [] made >>= λ kept. ok (obj kept)
  guarded v = ok v

  pub guarded_items : Items → Parsed Items
  guarded_items nil = ok nil
  guarded_items (cons v vs) = guarded v >>= λ made. guarded_items vs >>= λ rest. ok (cons made rest)

  pub guarded_fields : Fields → Parsed Fields
  guarded_fields end = ok end
  guarded_fields (field k v fs) =
      guarded v >>= λ made. guarded_fields fs >>= λ rest. ok (field k made rest)

abbrev pub built : Loaded → Parsed Json
built invalid = err unreadable
built constant = err bad_constant
built (tree v) = guarded v

abbrev pub shaped : Shaped → Parsed Unit
shaped (ok done) = ok done
shaped (err e) = err (bad_shape e)

abbrev pub root_object : Json → Parsed Fields
root_object (obj fields) = ok fields
root_object _ = err not_object

module _ (decode : List ℕ → Option String) (loads : String → Loaded)
    (sha256 : List ℕ → String) where
  abbrev pub decoded : List ℕ → Parsed String
  decoded raw = elim (decode raw) [ none ↦ err unreadable | some text ↦ ok text ]

  unfoldable pub parse_json_bytes : List ℕ → Parsed (Fields × String)
  parse_json_bytes raw = permit (leb (length raw) max_json_bytes) too_long >>= λ short.
      decoded raw >>= λ text. built (loads text) >>= λ value.
      shaped (validate_json_shape value) >>= λ fine.
      root_object value >>= λ fields. ok (fields, sha256 raw)
