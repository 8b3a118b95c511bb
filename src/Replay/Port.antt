-- ===== src/Replay/Port.antt =====
-- replay/src/lib.rs: the errors, the formats, and what the readers call of the file system.
use orderbook_replay_lab.Base.{ℕ, ◌∷◌, nat_eq, Text, text_eq}
use orderbook_replay_lab.Base.Result.{Result}
use orderbook_replay_lab.Core.Types.{CoreError}
use Prim.Native.String.{String}
use orderbook_replay_lab.Codec.Defs.{Bytes, CodecError, from_le_bytes}

-- Files and their operations: `File::open` under a `BufReader`, `Read::read` into a slice of a given
-- length, `BufRead::read_line` into an empty string, and `Mmap::map` of an opened file.
pub record Files : Type 1 where
  pub IoError : Type 0
  pub Location : Type 0
  pub File : Type 0
  pub open_file : Location → Result IoError File
  pub read : ℕ → File → Result IoError Bytes × File
  pub read_line : File → Result IoError Text × File
  pub map_file : Location → Result IoError Bytes

-- `unexpected_eof` is the I/O error that the readers make themselves, with its message.
pub data ReplayError (I E : Type 0) : Type 0 where
  io : I → ReplayError I E
  unexpected_eof : (message : String) → ReplayError I E
  core : CoreError → ReplayError I E
  decode : CodecError E → ReplayError I E

pub data ReplayFormat : Type 0 where
  jsonl bin : ReplayFormat

-- `u32::from_le_bytes` of an array of four bytes.
abbrev pub from_le_prefix : Bytes → ℕ
from_le_prefix (a ∷ b ∷ c ∷ d ∷ _) = from_le_bytes a b c d
from_le_prefix _ = 0
