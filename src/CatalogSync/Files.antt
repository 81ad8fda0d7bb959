-- ===== src/CatalogSync/Files.antt =====
-- sync.py: write_files with _stage_outputs, _backup_outputs and _rollback_outputs, over a store of
-- files. What the operating system answers to the calls for one destination is a parameter; `false`
-- is a call that raises an OSError and leaves the files as they are, but for a write or a copy.
pub mod Frames
pub mod Names
pub mod Steps
pub mod Rollback
pub mod Outputs
pub mod Rolled
pub mod Transaction
use k8s_stack_tooling.Prelude.{
  ℕ, String, Bool, true, false, Option, none, some, List, [], ◌∷◌, ◌==◌, not, ◌&&◌, ◌||◌, is_some,
  if◌then◌else◌, str_eq,
}

abbrev pub Bytes : Type 0
Bytes = List ℕ

abbrev pub Files : Type 0
Files = String → Option Bytes

abbrev pub put : Files → String → Option Bytes → Files
put fs path f q = if str_eq q path then f else fs q

-- `source.replace(target)`
abbrev pub move : Files → String → String → Files
move fs source target = put (put fs target (fs source)) source none

abbrev pub bytes_eq : Bytes → Bytes → Bool
bytes_eq [] [] = true
bytes_eq (a ∷ xs) (b ∷ ys) = a == b && bytes_eq xs ys
bytes_eq _ _ = false

-- One destination, its generated content, and the names that mkstemp gives for it.
pub record Output : Type 0 where
  pub destination : String
  pub content : Bytes
  pub temporary : String
  pub backup : String

-- How the calls for one destination end. `landed` is what the temporary file holds after the write,
-- and `copied` what a copy that fails has left.
pub record Answers : Type 0 where
  pub mkdir_ok : Bool
  pub mkstemp_ok : Bool
  pub write_ok : Bool
  pub landed : Bytes
  pub read_ok : Bool
  pub backup_ok : Bool
  pub copy_ok : Bool
  pub copied : Bytes
  pub replace_ok : Bool
  pub restore_ok : Bool
  pub unlink_temporary_ok : Bool
  pub unlink_backup_ok : Bool

-- A destination with whether it has a backup.
abbrev pub Saved : Type 0
Saved = Output × Bool

-- A loop that may be broken off: whether it went through, the files, and the list it has filled.
pub record Progress (A : Type 0) : Type 0 where
  pub whole : Bool
  pub files : Files
  pub items : List A

abbrev pub stopped : {A : Type 0} → Files → List A → Progress A
stopped fs items = record { whole = false; files = fs; items = items }

abbrev pub finished : {A : Type 0} → Files → Progress A
finished fs = record { whole = true; files = fs; items = [] }

abbrev pub with_item : {A : Type 0} → A → Progress A → Progress A
with_item x p = record p { items = x ∷ p.items }

-- How the body of write_files ends: it returns, or it raises after a rollback that went through, or
-- after one that failed.
pub data Ending : Type 0 where
  returned rolled_back rollback_failed : Ending

abbrev pub Outcome : Type 0
Outcome = Ending × Files

module _ (sys : String → Answers) where
  -- Of the temporary file of one output.
  abbrev pub is_staged : Output → Bool
  is_staged o =
      (sys o.destination).write_ok
      && (sys o.destination).read_ok
      && bytes_eq (sys o.destination).landed o.content

  -- _stage_outputs
  unfoldable pub stage_outputs : List Output → Files → Progress Output
  stage_outputs [] fs = finished fs
  stage_outputs (o ∷ os) fs =
      let written = put fs o.temporary (some (sys o.destination).landed) in
      let rest = with_item o (stage_outputs os written) in
      if not ((sys o.destination).mkdir_ok && (sys o.destination).mkstemp_ok)
      then stopped fs []
      else if not (is_staged o)
      then stopped written (o ∷ [])
      else rest

  -- _backup_outputs
  unfoldable pub backup_outputs : List Output → Files → Progress Saved
  backup_outputs [] fs = finished fs
  backup_outputs (o ∷ os) fs =
      let saved = with_item (o, true) (backup_outputs os (put fs o.backup (fs o.destination))) in
      let bare = with_item (o, false) (backup_outputs os fs) in
      if not (is_some (fs o.destination))
      then bare
      else if not (sys o.destination).backup_ok
      then stopped fs []
      else if not (sys o.destination).copy_ok
      then stopped (put fs o.backup (some (sys o.destination).copied)) ((o, true) ∷ [])
      else saved

  -- The loop of write_files that fills `replaced`.
  unfoldable pub replace_outputs : List Saved → Files → Progress Saved
  replace_outputs [] fs = finished fs
  replace_outputs ((o, b) ∷ os) fs =
      let rest = with_item (o, b) (replace_outputs os (move fs o.temporary o.destination)) in
      if (sys o.destination).replace_ok then rest else stopped fs ((o, b) ∷ [])

  -- The body of the loop of _rollback_outputs.
  abbrev pub restore : Saved → Bool × Files → Bool × Files
  restore (o, b) (fine, fs) =
      if b && is_some (fs o.backup)
      then (if (sys o.destination).restore_ok
          then (fine, move fs o.backup o.destination)
          else (false, fs))
      else if not b && is_some (fs o.destination)
      then (if (sys o.destination).restore_ok
          then (fine, put fs o.destination none)
          else (false, fs))
      else (fine, fs)

  -- _rollback_outputs, from the last to the first; the Bool says that nothing failed.
  unfoldable pub rollback_outputs : List Saved → Files → Bool × Files
  rollback_outputs [] fs = (true, fs)
  rollback_outputs (s ∷ os) fs = restore s (rollback_outputs os fs)

  -- The two loops of `finally`; one that raises ends them.
  unfoldable pub unlink_temporaries : List Output → Files → Bool × Files
  unlink_temporaries [] fs = (true, fs)
  unlink_temporaries (o ∷ os) fs =
      let rest = unlink_temporaries os (put fs o.temporary none) in
      if (sys o.destination).unlink_temporary_ok then rest else (false, fs)

  unfoldable pub unlink_backups : List Saved → Files → Bool × Files
  unlink_backups [] fs = (true, fs)
  unlink_backups ((o, b) ∷ os) fs =
      let rest = unlink_backups os (if b then put fs o.backup none else fs) in
      if not b || (sys o.destination).unlink_backup_ok then rest else (false, fs)

  abbrev pub and_backups : Bool → List Saved → Bool × Files → Files
  and_backups preserve backups (true, fs) = if preserve then fs else (unlink_backups backups fs).1
  and_backups preserve backups (false, fs) = fs

  unfoldable pub clean_up : Bool → List Output → List Saved → Files → Files
  clean_up preserve staged backups fs = and_backups preserve backups (unlink_temporaries staged fs)

  abbrev pub after_rollback : List Output → List Saved → Bool × Files → Outcome
  after_rollback staged backups (true, fs) = (rolled_back, clean_up false staged backups fs)
  after_rollback staged backups (false, fs) = (rollback_failed, clean_up true staged backups fs)

  abbrev pub after_replace : List Output → List Saved → Progress Saved → Outcome
  after_replace staged backups r =
      if r.whole
      then (returned, clean_up false staged backups r.files)
      else after_rollback staged backups (rollback_outputs r.items r.files)

  abbrev pub after_backup : List Output → Progress Saved → Outcome
  after_backup staged b =
      if b.whole
      then after_replace staged b.items (replace_outputs b.items b.files)
      else (rolled_back, clean_up false staged b.items b.files)

  abbrev after_stage : Progress Output → Outcome
  after_stage s =
      if s.whole
      then after_backup s.items (backup_outputs s.items s.files)
      else (rolled_back, clean_up false s.items [] s.files)

  -- write_files after its checks of the paths, for the list of its three outputs.
  unfoldable pub write_files : List Output → Files → Outcome
  write_files os fs = after_stage (stage_outputs os fs)
