-- ===== src/Recovery/Files.antt =====
-- recovery.py: write_new, update, _write, _write_exclusive, _write_atomic and _write_all over a store
-- of files. What the operating system answers to each call is a parameter.
pub mod Durability
use k8s_stack_tooling.Prelude.{
  ℕ, zero, suc, ◌+◌, ◌/◌, ◌%◌, String, Bool, true, false, List, [], ◌∷◌, ◌++◌, ◌==◌, Option, none,
  some, not, ◌&&◌, ◌||◌, if◌then◌else◌, str_eq, Result, ok, err, take, drop, is_some,
}
use k8s_stack_tooling.Recovery.Operations.{
  RecoveryKitError, already_exists, does_not_exist, no_parent, writable_parent, not_written,
  os_error,
}

pub record File : Type 0 where
  pub mode : ℕ
  pub content : List ℕ

abbrev pub Files : Type 0
Files = String → Option File

abbrev write_at : Files → String → Option File → Files
write_at fs path f q = if str_eq q path then f else fs q

-- How the calls of one write end: `writes i` is what the i-th `os.write` returns, `none` an OSError.
pub record System : Type 0 where
  pub parent_is_dir : Bool
  pub parent_mode : ℕ
  pub create_ok : Bool
  pub chmod_ok : Bool
  pub writes : ℕ → Option ℕ
  pub fsync_ok : Bool
  pub close_ok : Bool
  pub replace_ok : Bool
  pub sync_directory_ok : Bool
  pub unlink_ok : Bool

pub data Written : Type 0 where
  done failed : List ℕ → Written
  out_of_fuel : Written

-- One `os.write`: an error, no byte, or n + 1 bytes, after which the loop goes on.
abbrev pub after_round : Option ℕ → List ℕ → (ℕ → Written) → Written
after_round none file next = failed file
after_round (some zero) file next = failed file
after_round (some (suc n)) file next = next n

-- _write_all; each round writes a byte at least, so the length of the payload is fuel enough.
unfoldable pub write_all : ℕ → (ℕ → Option ℕ) → ℕ → List ℕ → List ℕ → Written
write_all fuel writes i [] file = done file
write_all zero writes i (b ∷ view) file = out_of_fuel
write_all (suc fuel) writes i (b ∷ view) file =
    after_round (writes i) file
      (λ n. write_all fuel writes (suc i) (drop n view) (file ++ b ∷ take n view))

-- What the file holds, and whether `_write_all` and the calls up to `os.close` all went through.
pub data Stored : Type 0 where
  stored : Bool → List ℕ → Stored

abbrev pub after_write : System → Written → Stored
after_write sys (done file) = stored (sys.fsync_ok && sys.close_ok) file
after_write sys (failed file) = stored false file
after_write sys out_of_fuel = stored false []

unfoldable pub store_payload : System → ℕ → List ℕ → Stored
store_payload sys fuel payload = after_write sys (write_all fuel sys.writes 0 payload [])

abbrev pub private_file : List ℕ → Option File
private_file content = some (record { mode = 384; content = content })

abbrev pub Outcome : Type 0
Outcome = Result RecoveryKitError Unit × Files

-- _write_exclusive after the file has been created
abbrev pub finish_exclusive : System → String → Files → Stored → Outcome
finish_exclusive sys path fs (stored whole file) =
    let written = write_at fs path (private_file file) in
    if whole && sys.sync_directory_ok
    then (ok tt, written)
    else (err not_written, if sys.unlink_ok then write_at fs path none else written)

-- _write_exclusive
unfoldable pub write_exclusive : System → ℕ → String → List ℕ → Files → Outcome
write_exclusive sys fuel path payload fs =
    if is_some (fs path)
    then (err already_exists, fs)
    else if not sys.create_ok
    then (err os_error, fs)
    else finish_exclusive sys path fs (store_payload sys fuel payload)

-- The `finally` of _write_atomic.
abbrev drop_temporary : System → String → Files → Files
drop_temporary sys temporary fs = if sys.unlink_ok then write_at fs temporary none else fs

-- _write_atomic after `os.fchmod`
abbrev pub finish_atomic : System → String → String → Files → Stored → Outcome
finish_atomic sys path temporary fs (stored whole file) =
    let staged = write_at fs temporary (private_file file) in
    if not (whole && sys.replace_ok)
    then (err not_written, drop_temporary sys temporary staged)
    else let replaced = write_at (write_at staged path (private_file file)) temporary none in
      if sys.sync_directory_ok
      then (ok tt, drop_temporary sys temporary replaced)
      else (err not_written, drop_temporary sys temporary replaced)

-- _write_atomic; `temporary` is the fresh name of mkstemp, whose file is private from the start.
unfoldable pub write_atomic : System → ℕ → String → String → List ℕ → Files → Outcome
write_atomic sys fuel path temporary payload fs =
    if not sys.create_ok
    then (err os_error, fs)
    else if not sys.chmod_ok
    then (err not_written, drop_temporary sys temporary (write_at fs temporary (private_file [])))
    else finish_atomic sys path temporary fs (store_payload sys fuel payload)

-- `parent.stat().st_mode & 0o022`
abbrev group_or_world_writable : ℕ → Bool
group_or_world_writable mode = mode / 2 % 2 == 1 || mode / 16 % 2 == 1

-- the checks of _write on the parent directory
abbrev checked_parent : System → Files → Outcome → Outcome
checked_parent sys fs k =
    if not sys.parent_is_dir
    then (err no_parent, fs)
    else if group_or_world_writable sys.parent_mode
    then (err writable_parent, fs)
    else k

-- write_new, with _write; `payload` is the kit as JSON.
unfoldable pub write_new : System → ℕ → String → List ℕ → Files → Outcome
write_new sys fuel path payload fs =
    if is_some (fs path)
    then (err already_exists, fs)
    else checked_parent sys fs (write_exclusive sys fuel path payload fs)

-- update, with _write
unfoldable pub update : System → ℕ → String → String → List ℕ → Files → Outcome
update sys fuel path temporary payload fs =
    if not (is_some (fs path))
    then (err does_not_exist, fs)
    else checked_parent sys fs (write_atomic sys fuel path temporary payload fs)
