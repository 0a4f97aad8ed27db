-- ===== src/Ftp/Accounts/Rows.antt =====
-- Add and Authenticate of a static table together.
use go_protocols.Common.{◌≡◌, [], not, if◌then◌else◌, Bool-cases, inl, inr, Bytes, equal, ok, err}
use go_protocols.Common.Text.{codes, to_lower}
use go_protocols.Common.Maps.{bytes_key, lookup-insert}
use go_protocols.Ftp.Accounts.{Static, add, authenticate}

-- Behind Add a user logs in under the name in any case with exactly the password that was set, as
-- the name that was added; for every other name nothing has changed.
pub authenticate-add :
    (rows : Static) (name set user pass : Bytes)
    → authenticate (add name set rows) user pass ≡ (
        if equal (to_lower name) (to_lower user)
        then (if not (equal set pass)
            then err (codes "login incorrect")
            else ok (record { name = name; home = [] }))
        else authenticate rows user pass)
unfolding authenticate add
authenticate-add rows name set user pass =
    rw
      (lookup-insert (to_lower name) (to_lower user)
        (record { pass = set; user = record { name = name; home = [] } }) rows)
      (elim (Bool-cases (equal (to_lower name) (to_lower user))) [
        | inl same ↦ rw same
        | inr other ↦ rw other
      ])
