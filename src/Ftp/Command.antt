-- ===== src/Ftp/Command.antt =====
-- ftp/ftp/commands.go, and Command and Parse of ftp/ftp/ftp.go. Letters are folded in ASCII only.
pub mod RoundTrip
use go_protocols.Common.{
  ℕ, Bool, true, false, ◌||◌, List, [], ◌∷◌, ◌++◌, Option, none, some, ◌==◌, if◌then◌else◌, Bytes,
  equal, Result, ok, err,
}
use go_protocols.Common.Text.{codes, cut, trim_right, to_upper}
use Prim.Native.String.{String}

pub record Command : Type 0 where
  pub name : Bytes
  pub arg : Bytes

pub data Error : Type 0 where
  blank_command : Error

abbrev pub crlf : Bytes
crlf = 13 ∷ 10 ∷ []

abbrev pub is_line_end : ℕ → Bool
is_line_end c = c == 13 || c == 10

with_arg : Bytes → Bytes → Bytes
with_arg name [] = name ++ crlf
with_arg name (a ∷ arg) = name ++ (b' ' ∷ ((a ∷ arg) ++ crlf))

-- Command.String
unfoldable pub command_string : Command → Bytes
unfolding with_arg
command_string c = with_arg c.name c.arg

command_of : Option (Bytes × Bytes) → Bytes → Command
command_of none line = record { name = to_upper line; arg = [] }
command_of (some (name, arg)) line = record { name = to_upper name; arg = arg }

line_command : Bytes → Result Error Command
unfolding command_of
line_command [] = err blank_command
line_command (c ∷ cs) = ok (command_of (cut b' ' (c ∷ cs)) (c ∷ cs))

-- Parse
unfoldable pub parse : Bytes → Result Error Command
unfolding line_command
parse line = line_command (trim_right is_line_end line)

-- The commands that the server tells apart, by the constants of commands.go, and the rest.
pub data Verb : Type 0 where
  cmd_user cmd_pass cmd_quit cmd_noop cmd_syst cmd_feat cmd_help cmd_pwd : Verb
  cmd_cwd cmd_cdup cmd_type cmd_pasv cmd_epsv cmd_port cmd_eprt cmd_list : Verb
  cmd_nlst cmd_retr cmd_stor cmd_appe cmd_dele cmd_rmd cmd_mkd cmd_rnfr : Verb
  cmd_rnto cmd_rest cmd_size cmd_mdtm cmd_auth cmd_pbsz cmd_prot cmd_ccc : Verb
  cmd_other : Verb

abbrev entry : Bytes → Bytes → Verb → Verb → Verb
entry n text verb found = if equal n text then verb else found

unfoldable pub verb_of : Bytes → Verb
verb_of n = entry n (codes "USER") cmd_user (
    entry n (codes "PASS") cmd_pass (
      entry n (codes "QUIT") cmd_quit (
        entry n (codes "NOOP") cmd_noop (
          entry n (codes "SYST") cmd_syst (
            entry n (codes "FEAT") cmd_feat (
              entry n (codes "HELP") cmd_help (
                entry n (codes "PWD") cmd_pwd (
                  entry n (codes "CWD") cmd_cwd (
                    entry n (codes "CDUP") cmd_cdup (
                      entry n (codes "TYPE") cmd_type (
                        entry n (codes "PASV") cmd_pasv (
                          entry n (codes "EPSV") cmd_epsv (
                            entry n (codes "PORT") cmd_port (
                              entry n (codes "EPRT") cmd_eprt (
                                entry n (codes "LIST") cmd_list (
                                  entry n (codes "NLST") cmd_nlst (
                                    entry n (codes "RETR") cmd_retr (
                                      entry n (codes "STOR") cmd_stor (
                                        entry n (codes "APPE") cmd_appe (
                                          entry n (codes "DELE") cmd_dele (
                                            entry n (codes "RMD") cmd_rmd (
                                              entry n (codes "MKD") cmd_mkd (
                                                entry n (codes "RNFR") cmd_rnfr (
                                                  entry n (codes "RNTO") cmd_rnto (
                                                    entry n (codes "REST") cmd_rest (
                                                      entry n (codes "SIZE") cmd_size (
                                                        entry n (codes "MDTM") cmd_mdtm (
                                                          entry n (codes "AUTH") cmd_auth (
                                                            entry n (codes "PBSZ") cmd_pbsz (
                                                            entry n (codes "PROT") cmd_prot (
                                                            entry n (codes "CCC") cmd_ccc (
                                                            cmd_other))))))))))))))))))))))))))))))))
