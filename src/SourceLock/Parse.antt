-- ===== src/SourceLock/Parse.antt =====
-- scripts/source_lock.py: `parse_lock_bytes` and `read_lock`. `urlsplit`, the decoder, the reader
-- of JSON, the digest and the file system are arguments.
use yocto_qemu_edu_lab.Common.{ℕ, String, Option, none, some, List, Result, ok, err, ◌>>=◌}
use yocto_qemu_edu_lab.Json.{Fields}
use yocto_qemu_edu_lab.Shape.Parse.{ParseError, Loaded, parse_json_bytes}
use yocto_qemu_edu_lab.SourceLock.Values.{LockError}
use yocto_qemu_edu_lab.SourceLock.Validate.{Url, validate_lock}

pub data ReadError : Type 0 where
  -- the path leaves the repository, and the file cannot be read
  path_escapes cannot_read : ReadError
  bad_json : ParseError → ReadError
  bad_lock : LockError → ReadError

abbrev pub from_json {ℓ} : {A : Type ℓ} → Result ParseError A → Result ReadError A
from_json (ok a) = ok a
from_json (err e) = err (bad_json e)

abbrev pub from_lock {ℓ} : {A : Type ℓ} → Result LockError A → Result ReadError A
from_lock (ok a) = ok a
from_lock (err e) = err (bad_lock e)

module _ (urlsplit : String → Option Url) (decode : List ℕ → Option String)
    (loads : String → Loaded) (sha256 : List ℕ → String) where
  unfoldable pub parse_lock_bytes : List ℕ → Result ReadError (Fields × String)
  parse_lock_bytes raw = from_json (parse_json_bytes decode loads sha256 raw) >>= λ (lock, digest).
      from_lock (validate_lock urlsplit lock) >>= λ valid. ok (lock, digest)

  -- the bytes of the file, at most one more than the bound, or none where it cannot be read
  unfoldable pub read_lock : Option (List ℕ) → Result ReadError (Fields × String)
  unfolding parse_lock_bytes
  read_lock none = err cannot_read
  read_lock (some raw) = parse_lock_bytes raw
