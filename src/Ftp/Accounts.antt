-- ===== src/Ftp/Accounts.antt =====
-- The authenticators of ftp/server/auth/auth.go. A mutex guards each map access, so a call is one
-- step. Letters are folded in ASCII only.
pub mod Rows
use go_protocols.Common.{
  ℕ, Bool, true, false, not, ◌&&◌, List, [], ◌∷◌, Option, none, some, ◌==◌, if◌then◌else◌, Bytes,
  equal, Result, ok, err,
}
use go_protocols.Common.Text.{codes, to_lower}
use go_protocols.Common.Maps.{lookup, insert, bytes_key}
use go_protocols.Ftp.Backend.{User}

-- staticRow
pub record StaticRow : Type 0 where
  pub pass : Bytes
  pub user : User

-- The rows of Static.
abbrev pub Static : Type 0
Static = List (Bytes × StaticRow)

-- NewStatic
abbrev pub new_static : Static
new_static = []

-- Static.Add
unfoldable pub add : Bytes → Bytes → Static → Static
add user pass rows =
    insert (to_lower user) (record { pass = pass; user = record { name = user; home = [] } }) rows

check_row : Option StaticRow → Bytes → Result Bytes User
check_row none pass = err (codes "login incorrect")
check_row (some row) pass =
    if not (equal row.pass pass) then err (codes "login incorrect") else ok row.user

-- Static.Authenticate
unfoldable pub authenticate : Static → Bytes → Bytes → Result Bytes User
unfolding check_row
authenticate rows user pass = check_row (lookup (to_lower user) rows) pass

-- AnonymousConfig; the set of passwords is a list.
pub record AnonymousConfig : Type 0 where
  pub user : Bytes
  pub allowed_passwords : List Bytes

-- NewAnonymous
unfoldable pub new_anonymous : AnonymousConfig → AnonymousConfig
new_anonymous cfg = if equal cfg.user [] then record cfg { user = codes "anonymous" } else cfg

unfoldable pub allowed : List Bytes → Bytes → Bool
allowed [] pass = false
allowed (p ∷ ps) pass = if equal p pass then true else allowed ps pass

among_allowed : List Bytes → Bytes → Bool
unfolding allowed
among_allowed [] pass = true
among_allowed (p ∷ ps) pass = allowed (p ∷ ps) pass

-- AnonymousAuthenticator.Authenticate
unfoldable pub authenticate_anonymous : AnonymousConfig → Bytes → Bytes → Result Bytes User
unfolding among_allowed
authenticate_anonymous cfg user pass =
    if not (equal (to_lower user) (to_lower cfg.user))
    then err (codes "login incorrect")
    else if equal pass []
    then err (codes "password required")
    else if not (among_allowed cfg.allowed_passwords pass)
    then err (codes "login incorrect")
    else ok (record { name = user; home = [] })
