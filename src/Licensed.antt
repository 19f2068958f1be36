-- ===== src/Licensed.antt =====
-- forza_bootstrap/licensed.py: the transaction that copies one licensed file. Its data, the checks
-- of an action, and the opening, recording and renaming of the files beside the destination;
-- Install and Rollback have the two operations.
pub mod Install
pub mod Rollback
pub mod Renaming
pub mod Keeping
pub mod InstallKeeps
pub mod RollbackKeeps
pub mod Installed
pub mod Returned
pub mod Fresh
pub mod Undone
mod Tests
use forza_motorsport_linux.Base.{
  ℕ, suc, String, ◌<>◌, Text, codes, Bool, true, false, ◌&&◌, ◌||◌, not, Option, none, some, List,
  [], ◌∷◌, ◌++◌, map, Error, message, about, file_not_found, Result, ok, err, raise_if, ◌==◌,
  nat_eq, list_eq, option_eq, bool_eq, contains, leb, split, is_hex_of_length, if◌then◌else◌,
}
use forza_motorsport_linux.Base.Actions.{Action, pure, fail, lift, ◌>>=◌, ◌>>◌}
use forza_motorsport_linux.Files.{LeafKind, regular, symlink, subdirectory, special, find_named}
use forza_motorsport_linux.Snapshot.{FileState, FileRecord, absent}
use forza_motorsport_linux.Snapshot as Snapshots

abbrev pub max_licensed_size : ℕ
max_licensed_size = 268435456

-- 0o644
abbrev pub source_mode : ℕ
source_mode = 420

pub data LicensedDisposition : Type 0 where
  install replace keep : LicensedDisposition

pub data JournalStatus : Type 0 where
  planned installed rolled_back recovery_required : JournalStatus

pub record PrivateFileIdentity : Type 0 where
  pub size : ℕ
  pub sha256 : Text

-- The paths `_source` and `_destination` are their texts; what the source holds is in the world.
pub record LicensedAction : Type 0 where
  pub destination_logical : Text
  pub source_size : ℕ
  pub source_sha256 : Text
  pub before : FileRecord
  pub disposition : LicensedDisposition
  pub source : Text
  pub destination : Text

pub record Journal : Type 0 where
  pub destination_logical : Text
  pub source_size : ℕ
  pub source_sha256 : Text
  pub before : FileRecord
  pub disposition : LicensedDisposition
  pub stage_name : Text
  pub backup_name : Text
  pub rollback_name : Text
  pub recovery_name : Text
  pub status : JournalStatus

-- A file of the directory: what `fstat` and the bytes read say of it.
pub record HeldFile : Type 0 where
  pub kind : LeafKind
  pub owned : Bool
  pub inode : ℕ
  pub mode : ℕ
  pub size : ℕ
  pub sha256 : Text

-- The directory of the destination, each name once, or what `_open_parent` raises for it; what
-- `_open_validated_source` gives for the source; and what `_journal_from_value` makes of the
-- journal, if there is one; and whether the system has renameat2 with RENAME_NOREPLACE.
pub record CopyWorld : Type 0 where
  pub siblings : List (Text × HeldFile)
  pub parent : Result (Unit {0})
  pub source : Result PrivateFileIdentity
  pub journal : Option (Result Journal)
  pub next_inode : ℕ
  pub can_rename : Bool

unfoldable pub disposition_eq : LicensedDisposition → LicensedDisposition → Bool
disposition_eq install install = true
disposition_eq replace replace = true
disposition_eq keep keep = true
disposition_eq _ _ = false

unfoldable pub status_eq : JournalStatus → JournalStatus → Bool
status_eq planned planned = true
status_eq installed installed = true
status_eq rolled_back rolled_back = true
status_eq recovery_required recovery_required = true
status_eq _ _ = false

unfoldable pub is_regular : FileState → Bool
is_regular Snapshots.regular = true
is_regular absent = false

unfoldable pub is_absent : FileState → Bool
is_absent absent = true
is_absent Snapshots.regular = false

-- the equality of the dataclass
unfoldable pub record_eq : FileRecord → FileRecord → Bool
record_eq a b =
    a.logical_path == b.logical_path
    && (if is_absent a.state then is_absent b.state else is_regular b.state)
    && a.mode == b.mode
    && a.size == b.size
    && a.sha256 == b.sha256
    && a.private == b.private

-- os.path.basename of an absolute path, Path(text).name
unfoldable pub last_part : List Text → Text
last_part [] = []
last_part (part ∷ []) = part
last_part (part ∷ next ∷ parts) = last_part (next ∷ parts)

unfoldable pub name_of : Text → Text
name_of logical = last_part (split b'/' logical)

unfoldable pub absent_record : Text → FileRecord
absent_record logical = record {
  logical_path = logical;
  state = absent;
  mode = none;
  size = none;
  sha256 = none;
  private = true;
}

-- _record_fd, for a file that does not change while it is read
unfoldable pub record_fd : HeldFile → Text → FileRecord
record_fd held logical = record {
  logical_path = logical;
  state = Snapshots.regular;
  mode = some held.mode;
  size = some held.size;
  sha256 = some held.sha256;
  private = true;
}

-- _open_regular
unfoldable pub open_kind : LeafKind → HeldFile → String → Result HeldFile
open_kind symlink held label = err (message ("symlink refused for " <> label))
open_kind regular held label =
    if not held.owned then err (message (label <> " has unsafe ownership")) else ok held
open_kind _ held label = err (message (label <> " is not a regular file"))

unfoldable pub open_found : Option HeldFile → Text → String → Result HeldFile
open_found none name label = err (file_not_found name)
open_found (some held) name label = open_kind held.kind held label

unfoldable pub open_regular : Text → String → Action CopyWorld HeldFile
open_regular name label w = (open_found (find_named name w.siblings) name label, w)

-- _open_record: the record, and the file that stays open
unfoldable pub record_opened : Text → Result HeldFile → Result (FileRecord × Option HeldFile)
record_opened logical (ok held) = ok (record_fd held logical, some held)
record_opened logical (err (file_not_found name)) = ok (absent_record logical, none)
record_opened logical (err e) = err e

unfoldable pub open_record : Text → Text → Action CopyWorld (FileRecord × Option HeldFile)
open_record name logical w =
    (record_opened logical (open_found (find_named name w.siblings) name "licensed destination"), w)

-- _file_identity(a) == _file_identity(b)
unfoldable pub same_kind : LeafKind → LeafKind → Bool
same_kind regular regular = true
same_kind symlink symlink = true
same_kind subdirectory subdirectory = true
same_kind special special = true
same_kind _ _ = false

unfoldable pub same_file : HeldFile → HeldFile → Bool
same_file a b =
    same_kind a.kind b.kind && a.inode == b.inode && a.size == b.size && a.mode == b.mode

-- _same_named_file
unfoldable pub same_opened : HeldFile → Result HeldFile → Bool
same_opened held (ok named) = same_file named held
same_opened held (err e) = false

unfoldable pub same_named_file : Text → HeldFile → Action CopyWorld Bool
same_named_file name held w = (
  ok (same_opened held (open_found (find_named name w.siblings) name "licensed transaction file")),
  w,
)

unfoldable pub siblings_without : Text → List (Text × HeldFile) → List (Text × HeldFile)
siblings_without gone [] = []
siblings_without gone ((name, held) ∷ siblings) =
    let rest = siblings_without gone siblings in if name == gone then rest else (name, held) ∷ rest

unfoldable pub siblings_moved :
    Text → Text → Option HeldFile → List (Text × HeldFile) → List (Text × HeldFile)
siblings_moved source destination none siblings = siblings
siblings_moved source destination (some held) siblings =
    (destination, held) ∷ siblings_without source (siblings_without destination siblings)

-- What a rename does to a directory: a file that has the new name is replaced, and is gone.
unfoldable pub siblings_renamed : Text → Text → List (Text × HeldFile) → List (Text × HeldFile)
siblings_renamed source destination siblings =
    siblings_moved source destination (find_named source siblings) siblings

-- rename_noreplace in the directory, and what each caller says when there is such a name already.
-- Each caller has found a file under the old name before.
unfoldable pub move : Text → Text → String → Action CopyWorld (Unit {0})
move source destination conflict w =
    if not w.can_rename
    then (err (message "renameat2 RENAME_NOREPLACE is unavailable"), w)
    else if contains (map (λ s. s.0) w.siblings) destination
    then (err (message conflict), w)
    else (ok tt, record w { siblings = siblings_renamed source destination w.siblings })

-- _write_journal
unfoldable pub write_journal : Journal → Action CopyWorld (Unit {0})
write_journal journal w = (ok tt, record w { journal = some (ok journal) })

unfoldable pub matches_source : FileRecord → Journal → Bool
matches_source r journal =
    is_regular r.state
    && r.size == some journal.source_size
    && r.sha256 == some journal.source_sha256

unfoldable pub matches_staged_source : FileRecord → Journal → Bool
matches_staged_source r journal = matches_source r journal && r.mode == some source_mode

-- what is found under the recovery name
unfoldable pub check_recovered : HeldFile → Option HeldFile → Action CopyWorld (Unit {0})
check_recovered current none = fail (message "licensed recovery evidence is missing")
check_recovered current (some held) =
    lift (raise_if (not (same_file held current)) "licensed recovery evidence changed")

-- _quarantine_destination
unfoldable pub quarantine_held : Journal → HeldFile → Action CopyWorld Journal
quarantine_held journal current = do
  same ← same_named_file (name_of journal.destination_logical) current
  lift (raise_if (not same) "licensed recovery could not bind destination")
  move (name_of journal.destination_logical) journal.recovery_name
      "licensed recovery name conflicts"
  (_, recovered) ← open_record journal.recovery_name journal.destination_logical
  check_recovered current recovered
  write_journal (record journal { status = recovery_required })
  pure (record journal { status = recovery_required })

unfoldable pub quarantine_current : Journal → Option HeldFile → Action CopyWorld Journal
quarantine_current journal none = pure journal
quarantine_current journal (some held) = quarantine_held journal held

unfoldable pub quarantine_destination : Journal → Action CopyWorld Journal
quarantine_destination journal = do
  (_, current) ← open_record (name_of journal.destination_logical) journal.destination_logical
  quarantine_current journal current
