-- ===== src/Ftp/Backend.antt =====
-- What the server's session takes from its configuration: the authenticator, the filesystem and the
-- network, over a state of the world, with the texts that the standard library formats. The records
-- are those of ftp/server/auth/auth.go and ftp/server/fs/fs.go.
use go_protocols.Common.{ℕ, Bool, List, Bytes, Result}
use go_protocols.Common.Decimal.{ℤ}

-- auth.User
pub record User : Type 0 where
  pub name : Bytes
  pub home : Bytes

-- fs.Entry; a time is whatever number the formats below read.
pub record Entry : Type 0 where
  pub name : Bytes
  pub size : ℤ
  pub is_dir : Bool
  pub mod_time : ℕ
  pub owner : Bytes
  pub group : Bytes

-- An operation with an error: its result and the world after it.
abbrev pub Op : Type 0 → Type 0 → Type 0
Op World A = World → Result Bytes A × World

pub record Env (World : Type 0) : Type 0 where
  -- Config: WelcomeMessage and PassivePortRange.
  pub welcome : Bytes
  pub range_start : ℕ
  pub range_end : ℕ
  -- auth.Authenticator, which answers by its arguments alone.
  pub authenticate : Bytes → Bytes → Result Bytes User
  -- fs.Filesystem
  pub resolve : User → Bytes → Bytes → Op World Bytes
  pub stat : User → Bytes → Op World Entry
  pub list : User → Bytes → Op World (List Entry)
  pub mkdir : User → Bytes → Op World (Unit {0})
  pub remove : User → Bytes → Op World (Unit {0})
  pub rename : User → Bytes → Bytes → Op World (Unit {0})
  pub send_file : User → Bytes → ℕ → ℤ → Op World (Unit {0})
  pub recv_file : User → Bytes → ℕ → Op World (Unit {0})
  pub append_file : User → Bytes → ℕ → Op World (Unit {0})
  -- net: listeners and connections by number, a listener with its host and port.
  pub listen : ℕ → Op World ℕ
  pub host_of : ℕ → Bytes
  pub port_of : ℕ → ℕ
  pub accept : ℕ → Op World ℕ
  pub dial : Bytes → Op World ℕ
  pub write : ℕ → Bytes → World → World
  pub close : ℕ → World → World
  pub join_host_port : Bytes → Bytes → Bytes
  -- fmt's %q and the two formats of a time.
  pub quote : Bytes → Bytes
  pub list_time : ℕ → Bytes
  pub utc_time : ℕ → Bytes
