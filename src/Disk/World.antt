-- ===== src/Disk/World.antt =====
-- The state of the disk. volume/filesystem.go keeps three directories, init/, live/ and dead/, each
-- with an entry for each handle. A handle is taken to be one path component.
use baggageclaim.Prelude.{ℕ, String, Bool, Option, none, List, true, false, if◌then◌else◌, ◌≡◌}
use baggageclaim.Prelude.Table.{Table, get, put, delete}

abbrev pub Bytes : Type 0
Bytes = List ℕ

-- A file below the data directory of a volume, by its path from there.
pub record File : Type 0 where
  pub path : String
  pub uid : ℕ
  pub gid : ℕ
  pub mode : ℕ
  pub is_symlink : Bool
  pub content : Bytes

-- The directory of a volume: `properties.json`, `privileged.json`, the symbolic link `parent` to an
-- entry of live/, and the data directory `volume`.
pub record Dir : Type 0 where
  pub properties : Option Bytes
  pub privileged : Option Bytes
  pub parent : Option String
  pub files : Option (List File)

abbrev pub empty_dir : Dir
empty_dir = record { properties = none; privileged = none; parent = none; files = none }

pub data Node : Type 0 where
  regular : Node
  directory : Dir → Node

-- initDirname, liveDirname and deadDirname
pub data Stage : Type 0 where
  init live dead : Stage

-- `baseVolume`: the directory of a volume is the entry of its handle in one of the three.
pub record BaseVolume : Type 0 where
  pub stage : Stage
  pub handle : String

-- `faults n` is the error that the machine makes of the n-th call, such as EIO or EACCES; a write
-- that fails may have written some of its bytes.
pub record Fault : Type 0 where
  pub errno : ℕ
  pub written : ℕ

pub record World : Type 0 where
  pub tables : Stage → Table Node
  pub clock : ℕ
  pub held : List String  -- the keys that this request has locked, the last one first
  pub faults : ℕ → Option Fault

abbrev pub entries : Stage → World → Table Node
entries s w = w.tables s

abbrev pub same_stage : Stage → Stage → Bool
same_stage init init = true
same_stage live live = true
same_stage dead dead = true
same_stage _ _ = false

abbrev pub set_entries : Stage → Table Node → World → World
set_entries s t w = record w { tables = λ u. if same_stage u s then t else w.tables u }

abbrev pub node : Stage → String → World → Option Node
node s h w = get h (entries s w)

abbrev pub set_node : Stage → String → Node → World → World
set_node s h n w = set_entries s (put h n (entries s w)) w

abbrev pub delete_node : Stage → String → World → World
delete_node s h w = set_entries s (delete h (entries s w)) w

-- No call fails from here on.
abbrev pub NoFaults : World → Type 0
NoFaults w = (n : ℕ) → w.faults n ≡ none
