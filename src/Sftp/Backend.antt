-- ===== src/Sftp/Backend.antt =====
-- The Backend interface of sftp/server/server.go, over a world that its calls change. An error keeps
-- its text and what the server asks of it: is it io.EOF, os.ErrNotExist, os.ErrPermission.
use go_protocols.Common.{ℕ, Bool, List, Bytes, Result}
use go_protocols.Common.Decimal.{ℤ}

pub record Failure : Type 0 where
  pub text : Bytes
  pub is_eof : Bool
  pub is_not_exist : Bool
  pub is_permission : Bool

-- A call with an error: its result and the world after it.
abbrev pub Op : Type 0 → Type 0 → Type 0
Op World A = World → Result Failure A × World

-- FileStat; a time in Unix seconds.
pub record FileStat : Type 0 where
  pub name : Bytes
  pub size : ℕ
  pub mode : ℕ
  pub is_dir : Bool
  pub mtime : ℤ
  pub uid : ℕ
  pub gid : ℕ

-- Backend. A read takes the size of the buffer, and gives the number that it returns with the buffer
-- after it.
pub record Backend (World : Type 0) : Type 0 where
  pub stat : Bytes → Op World FileStat
  pub lstat : Bytes → Op World FileStat
  pub open_file : Bytes → ℕ → Op World Bytes
  pub read : Bytes → ℕ → ℕ → Op World (ℤ × Bytes)
  pub write : Bytes → ℕ → Bytes → Op World ℕ
  pub close : Bytes → Op World (Unit {0})
  pub readdir : Bytes → Op World (List FileStat)
  pub mkdir : Bytes → Op World (Unit {0})
  pub rmdir : Bytes → Op World (Unit {0})
  pub remove : Bytes → Op World (Unit {0})
  pub rename : Bytes → Bytes → Op World (Unit {0})
