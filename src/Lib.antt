-- ===== src/Lib.antt =====
-- Parts of the go-protocols repository: the data structures and the wire formats under torrent/,
-- irc/, ftp/ and sftp/.
--
-- Common holds what the parts share: Boolean tests, lists with a length over the native numbers,
-- results, decimal numbers as strconv reads and writes them, text as lists of byte values, maps as
-- association lists, and checks over all bytes.
--
-- Torrent
--   Torrent.Bitfield   torrent/bitfield/bitfield.go: New is `new`, Has `has`, Set `mark`, Count
--                      `count`, Validate `validate`. A byte is a number below 256 (`AreBytes`).
--   Torrent.Peer       torrent/peer/peer.go: handshake and messages.
--   Torrent.Metainfo   torrent/metainfo/metainfo.go, with SHA-1 as a parameter.
--   Torrent.Tracker    parseResponse of torrent/tracker/tracker.go.
--   Torrent.Piece      torrent/piece/piece.go: State with New, Complete, NextRequest, Store, Verify.
--                      SHA-1 is a parameter of `verify`.
--   Torrent.Bencode    torrent/bencode/bencode.go: decode and its parts return the bytes that are left
--                      in the reader. `decode_all` is Decode, `encode` is Encode on the values that
--                      Decode returns. The fuel 2 * length + 1 is enough for every input.
--
-- Irc
--   Irc.Ringbuf        irc/internal/ringbuf/ringbuf.go: every method, for any type of elements.
--   Irc.ModeString     irc/irc/mode.go: ParseModeString and FormatModeChanges.
--   Irc.ModeSet        irc/server/mode/set.go: the modes of a channel or a user, Apply, and the two
--                      validators. It applies the changes that Irc.ModeString reads.
--   Irc.Server.Names   the helpers at the end of irc/server/handlers.go: names and masks.
--   Irc.Server.State   irc/server/server.go: sessions, the registry of nicks, the channels and what is
--                      sent. A *Session is a number, and a channel is the value under its name.
--   Irc.Server.Register   NICK, USER, PASS and PING of irc/server/handlers.go, and the welcome;
--                      the tokens of isupport are fewer than the 39 that three rounds send.
--   Irc.Server.Channels   PART, KICK and TOPIC there, and removeSession of irc/server/server.go.
--   Irc.Server.Join    JOIN and the names that it sends; fmt.Sscan is a parameter.
--   Irc.Server.Monitor MONITOR; the sorting of its list is a parameter.
--   Irc.Server.Events  dispatch for these commands, one function of the state for each.
--   Irc.Message        irc/irc/message.go: Parse and Format with tags, prefixes and parameters. The
--                      length of the line is enough fuel for the loop over the parameters.
--
-- Ftp
--   Ftp.Command        Command and Parse of ftp/ftp/ftp.go, and the verbs of ftp/ftp/commands.go.
--   Ftp.Reply          Reply of ftp/ftp/ftp.go and the scanner of ftp/ftp/reply.go; a line takes a byte
--                      at least, so the length of the input is enough fuel.
--   Ftp.Backend        the interfaces of ftp/server/auth/auth.go and ftp/server/fs/fs.go and what the
--                      server takes of the network, over a world that they change: parameters.
--   Ftp.Address        parsePORT of ftp/server/session.go, FormatPORT and FormatEPRT of ftp/ftp/parse.go.
--   Ftp.State          the session of ftp/server/session.go: its fields, the world and the replies sent;
--                      reply, acceptData and openPassive.
--   Ftp.Handlers       one function for each handler of that file. `on` is an operation with its error
--                      reply, `with_data` the data connection that a transfer opens and closes.
--   Ftp.Paths          pathClean and Resolve of ftp/server/fs/fs.go.
--   Ftp.Accounts       the two authenticators of ftp/server/auth/auth.go.
--   Ftp.Session        dispatch and serve; serve takes the lines that the reader returns.
--
-- Sftp
--   Sftp.Constants     sftp/sftp/sftp.go.
--   Sftp.Packet        sftp/sftp/packet.go: packets, strings and integers of the wire format.
--   Sftp.Attr          sftp/sftp/attr.go: file attributes and status replies.
--   Sftp.Init          sftp/sftp/init.go: request ids and the version.
--   Sftp.Backend       the Backend interface of sftp/server/server.go over a world: a parameter.
--   Sftp.Server        the variables of Serve in that file and its local functions; `field`, `on` and
--                      `resolving` are a step with its error reply.
--   Sftp.Handlers      one function for each case of the switch.
--   Sftp.Serve         the loop, which takes a round for each packet and one for the end of the input.
--
-- Machine integers: the program's int is 64 bits wide. Numbers that are read from text are checked
-- against that range (`IsInt64`); lengths and indices of slices are below it and are natural numbers
-- here. Bytes are natural numbers, and a bit operation on them is written out.
-- A Go map is an association list; a theorem about a map speaks of `lookup`, fixes the order or allows
-- any.
-- A method that holds a mutex throughout is one step. Errors are values named after their messages.
-- Letters are folded in ASCII only, where strings.ToUpper also folds other letters. Common.Utf8 has the
-- runes of a string, as a range over it visits them and as WriteRune writes them.
--
-- Not modelled: goroutines, sockets and deadlines; the other commands of the IRC server, its
-- histories and labelled responses; the bouncer and the clients; the backends of the SFTP server; the
-- HTTP request to a tracker; the commands and the configuration files. Memory is unlimited: a length
-- that `make` refuses as too large counts as missing data.
pub mod Common
pub mod Torrent
pub mod Irc
pub mod Ftp
pub mod Sftp
mod Examples
