-- ===== src/Sftp/Constants.antt =====
-- The constants of sftp/sftp/sftp.go: packet types, open flags and status codes.
use go_protocols.Common.{ℕ}

abbrev pub type_init : ℕ
type_init = 1

abbrev pub type_version : ℕ
type_version = 2

abbrev pub type_open : ℕ
type_open = 3

abbrev pub type_close : ℕ
type_close = 4

abbrev pub type_read : ℕ
type_read = 5

abbrev pub type_write : ℕ
type_write = 6

abbrev pub type_lstat : ℕ
type_lstat = 7

abbrev pub type_fstat : ℕ
type_fstat = 8

abbrev pub type_setstat : ℕ
type_setstat = 9

abbrev pub type_fsetstat : ℕ
type_fsetstat = 10

abbrev pub type_opendir : ℕ
type_opendir = 11

abbrev pub type_readdir : ℕ
type_readdir = 12

abbrev pub type_remove : ℕ
type_remove = 13

abbrev pub type_mkdir : ℕ
type_mkdir = 14

abbrev pub type_rmdir : ℕ
type_rmdir = 15

abbrev pub type_rename : ℕ
type_rename = 16

abbrev pub type_readlink : ℕ
type_readlink = 21

abbrev pub type_symlink : ℕ
type_symlink = 20

abbrev pub type_stat : ℕ
type_stat = 17

abbrev pub type_status : ℕ
type_status = 101

abbrev pub type_handle : ℕ
type_handle = 102

abbrev pub type_data : ℕ
type_data = 103

abbrev pub type_name : ℕ
type_name = 104

abbrev pub type_attrs : ℕ
type_attrs = 105

abbrev pub type_extended : ℕ
type_extended = 200

abbrev pub open_read : ℕ
open_read = 1

abbrev pub open_write : ℕ
open_write = 2

abbrev pub open_append : ℕ
open_append = 4

abbrev pub open_create : ℕ
open_create = 8

abbrev pub open_trunc : ℕ
open_trunc = 16

abbrev pub open_excl : ℕ
open_excl = 32

abbrev pub status_ok : ℕ
status_ok = 0

abbrev pub status_eof : ℕ
status_eof = 1

abbrev pub status_no_such_file : ℕ
status_no_such_file = 2

abbrev pub status_permission_denied : ℕ
status_permission_denied = 3

abbrev pub status_failure : ℕ
status_failure = 4

abbrev pub status_bad_message : ℕ
status_bad_message = 5

abbrev pub status_no_connection : ℕ
status_no_connection = 6

abbrev pub status_connection_lost : ℕ
status_connection_lost = 7

abbrev pub status_op_unsupported : ℕ
status_op_unsupported = 8
