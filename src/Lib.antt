-- ===== src/Lib.antt =====
-- libfep puts a front end processor, such as an input method, between a terminal and a child
-- process. The program `fep` (fep/) runs the child on a pseudo terminal, reads keys and terminal
-- output, and listens on a control socket. A client uses the library (libfep/): it sends requests
-- to show text at the cursor or on the status line or to pass text on to the child, and is asked
-- by the server to filter key presses and resizes. Both ends talk in control messages.
--
-- The parts, each with the files that it models:
--
-- - FepString, with FepString/Refines: the growing byte buffer, libfep/string.c. A block of memory
--   is the list of its bytes; the allocator is a parameter (`Memory`), as what fresh memory holds
--   is not known.
-- - Strv, with Strv/Fields and Strv/RoundTrip: `_fep_strsplit`, `_fep_strsplit_set`,
--   `_fep_strjoinv` and `_fep_strv_length` of libfep/string.c, on C strings without their NUL.
-- - Number, with Number/RoundTrip: what the keys use of `%d` and `strtoul` of the C library.
-- - Csi, with Csi/Parsing and Csi/Scanning: control sequences, fep/csi.c.
-- - Cap: terminfo capabilities, fep/cap.c. `tigetstr` is a parameter.
-- - FepList, with FepList/Shapes and FepList/Appending: the doubly linked list, libfep/list.c, on a
--   heap of nodes.
-- - Wide, with Wide/Pieces and Wide/Truncation: `_fep_strwidth`, `_fep_strtrunc`, `_fep_charcount`
--   and `_fep_substring` of libfep/string.c. The locale is a parameter (`Locale`).
-- - Keydefs: the constants of libfep/keydefs.h.
-- - Key, with Key/Escape, Key/Chars, Key/Cursor, Key/Progress and Key/Total: fep/key.c, keys read from the
--   terminal (`_fep_char_to_key`, `_fep_esc_to_key`) and written to the child process
--   (`_fep_key_to_string`).
-- - Message, with Message/Args: the commands, the messages and the accessors of their arguments,
--   libfep/control.c and libfep/private.h. A queue of messages is the list of them. Message/Text,
--   with Message/Text/Printing: the text of a message for the log.
-- - Wire, with Wire/Length, Wire/Receive, Wire/Send and Wire/RoundTrip:
--   `_fep_read_control_message` and `_fep_write_control_message` of libfep/control.c. A socket is
--   the list of what the system will deliver and of what it will answer, so reads and writes may
--   be split, end or fail at any place. The buffer's size, the signedness of `char` and the memory
--   are parameters (`Platform`).
-- - Request and Client, with Client/Calls, Client/Dispatch, Client/Handling, Client/Steps and
--   Client/Opening: libfep/client.c, `fep_client_open`, the calls of a client, the queue of messages
--   while an event filter runs, and `fep_client_dispatch`, as single calls and as the steps that an
--   application takes. The filter is a function from the event to the calls that it makes and its
--   result.
-- - Reply and Server, with Server/Requests and Server/Exchange: fep/control.c, the handlers of a
--   client's requests, their dispatch, and `_fep_transceive_control_message`, which queues what
--   arrives before the response. Drawing is an interface (`Terminal`), and the writes to the child
--   process, `_fep_output_send_text` and `_fep_output_send_data` of fep/output.c, are modelled.
-- - ControlSocket, with ControlSocket/Naming: the name, the opening and the removal of the control
--   socket, fep/control.c. The environment and the system calls are parameters.
-- - Clients, with Clients/Removal: `_fep_read_control_message_from_fd` of fep/control.c and the
--   table of clients, whose `memmove` works on bytes.
-- - Sgr, with Sgr/Colours and Sgr/Bits: fep/sgr.c, attributes as SGR parameters and back, and the
--   terminal's codes for them.
-- - Input, with Input/Ready: fep/input.c, `_fep_read` with the bytes that were put back, and the
--   descriptors that `_fep_pselect` waits for.
-- - Screen, with Screen/Sending and Screen/Quiet, and Draw, with Draw/Pty, Draw/Quiet, Draw/Steps,
--   Draw/Texts, Draw/Status and Draw/Passing: fep/output.c. Screen has the state that drawing changes,
--   attributes and the cursor, Draw the text at the cursor and on the status line, and Draw/Pty the
--   text of the child process. The terminal's capabilities, `tputs` and `str_iconv` are parameters
--   (`Device`). The text of the child process stands in a block of memory, as the code scans past
--   its end.
-- - MainLoop: fep/fep.c. MainLoop has the search for what clears the screen, the flags of signals
--   and the acceptance of a client, MainLoop/Loop the handling of keys, MainLoop/Child that of text
--   of the child process and of a new size, MainLoop/Running the program's state with its start and
--   end, MainLoop/Signals and MainLoop/Serving what is done with signals and with what is ready,
--   and MainLoop/Rounds the loop. `drawing` in MainLoop/Child fills the interface `Terminal` of the
--   server with Draw. MainLoop/Matching, MainLoop/Keys, MainLoop/Flags, MainLoop/Cooked,
--   MainLoop/Connections, MainLoop/Drawing, MainLoop/Stays, MainLoop/Exits, MainLoop/Turns,
--   MainLoop/Shown and MainLoop/Typing are about the search, typed keys without a client,
--   signals, the terminal's modes, connections, drawing from the start to the end, what does not
--   end the process, what does, requests of ready clients, a status text on its whole way from a
--   client to the terminal, and a typed key on its way through a client's filter.
-- - Start: fep/main.c and `fep_run` of fep/fep.c, the options, the start and the exit status.
-- - Logger, with Logger/Lines: libfep/logger.c.
-- - Glib: libfep-glib/fepgclient.c and fepgevents.c, the client as a GObject. Glib/Events has the
--   events and their sources in memory, Glib/Filtering the filter that emits signals, Glib/Objects
--   the object, and Glib/Copies, Glib/Offers, Glib/Dispatching and Glib/Opening are about copies of
--   events, the handlers that are asked, the dispatch of a key event, and a new object. What GLib
--   does is a parameter (`Allocator`, `Emission`, `Notice`, `Construction`). The sizes of the events
--   are those where a pointer has eight bytes. The dispatch is given a filter that returns, as
--   `event_filter` does on key events.
-- - Cli, with Cli/Parsing and Cli/Requests: tools/cli.c, on the options that `getopt_long` returns.
-- - Base: the names and lemmas that the modules share, `Outcome` (the result of code that may
--   return -1, touch memory out of bounds, abort the process or fail to end) and `Act` (an outcome
--   with a state that is kept on every path).
-- - Tests: the theorems at fixed inputs.
--
-- Conventions: a return of -1 is `failed`, an access out of bounds `fault`, a failed assertion or
-- allocation `died`, and fuel that has run out `looping`. Bytes are numbers below 256 and wider
-- integers are numbers with their wrap-around written out. The host is little-endian.
--
-- Fuel: `strsplit_full` and `csi_scan` give themselves one round more than the text has bytes, and
-- `decimal` one more than the number, which is enough for every text and number. The loops over
-- typed keys and over the sequences of the child process, and the search for what clears the
-- screen, give themselves one round more than their text has bytes, as each round passes one byte
-- at least. The loops on sockets take their fuel as an argument, and the theorems say how much is
-- enough: more than the bytes of the argument. The loop over ready clients gives itself one round
-- more than there are clients; the main loop runs on the list of what it is woken with.
--
-- Not modelled: the child's side of the fork, the usage texts, `_fep_strfreev` of libfep/string.c
-- and the release of memory that no other part looks at; the closing of a client's connection; of
-- the terminal's modes all but whether it is raw; and in libfep-glib/ the registration of types and
-- signals, and the boxed attribute, which is a plain copy of a struct.
--
pub mod Base
pub mod FepString
pub mod Strv
pub mod Wide
pub mod FepList
pub mod Glib
pub mod Logger
pub mod Csi
pub mod Number
pub mod Cap
pub mod Keydefs
pub mod Sgr
pub mod Key
pub mod Message
pub mod Wire
pub mod Request
pub mod Client
pub mod Reply
pub mod Server
pub mod Input
pub mod Screen
pub mod Draw
pub mod MainLoop
pub mod Start
pub mod Cli
pub mod ControlSocket
pub mod Clients
pub mod Tests
