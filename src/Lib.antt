-- ===== src/Lib.antt =====
-- Verification of QtGretio.
--
-- QtGretio makes a Gretio device, which is reached through a web socket, usable by programs that
-- speak the SAE J2534 pass-thru interface. SurrealJ2534Wrapper is the library that those programs
-- load; QtZeroConf finds the devices on the network, and contains parts of Avahi to do so.
--
-- How the parts interact. A program calls the exported functions of J2534.cpp (PassThru). Opening
-- creates a GretioWebContext (Context), which owns the window (Window), the service finder (Finder),
-- the socket (Socket) and the authentication handler (Auth), and runs an event loop until a session
-- begins. Every other call builds a JSON object, sends it with the next number, and runs an event
-- loop until a message with that number arrives or a timer fires.
--
-- Which file models which part:
--   Qt             what the wrapper uses of Qt: strings, JSON, keys; a parameter with stated laws
--   J2534          SurrealJ2534Wrapper/J2534.h and GretioWebConstants.h
--   J2534.Message  PtMsgToJson and CopyJsonMsg of SurrealJ2534Wrapper/J2534.cpp
--   Socket         SurrealJ2534Wrapper/gretiowebsocketclient.cpp
--   Auth           SurrealJ2534Wrapper/gretioauthhandler.cpp
--   Finder         SurrealJ2534Wrapper/gretioservicefinder.cpp
--   Window         SurrealJ2534Wrapper/gretiomainwindow.cpp
--   Context        SurrealJ2534Wrapper/gretiowebcontext.cpp; Phases is the state machine that its
--                  status and its authentication refine, Numbering what it sends, Exchange one
--                  request and its end, Selecting the way from a row of the table to a connection
--   PassThru       SurrealJ2534Wrapper/J2534.cpp, the calls that open and close;
--                  Transfer the reads and writes of messages, Channel the periodic messages,
--                  filters, the programming voltage and PassThruIoctl, Calls all of them as data;
--                  Asking and Exchange say what a call has to do with the server, Carrying what
--                  becomes of the messages
--   App            GretioApp/main.cpp, a client of the exported functions
--   Avahi          the parts of Avahi that stand below a file of the same name in
--                  QtZeroConf/avahi-common and avahi-core:
--     Utf8         avahi-common/utf8.c
--     Label        avahi-common/domain.c, avahi_unescape_label and avahi_escape_label; Joined has
--                  names as lists of labels
--     Domain       avahi-common/domain.c, the functions on names of several labels
--     StringList   avahi-common/strlst.c
--     Normal       avahi-common/domain.c, normalizing, joining and splitting names
--     Hashmap      avahi-core/hashmap.c; Refinement and Abstract relate it to a list of pairs, whose
--                  operations are in Pairs
--     Record       avahi-core/rr.c; Compare has the order of records, along with
--                  avahi_binary_domain_cmp of avahi-core/domain-util.c
--     Packet       avahi-core/dns.c: Names for names, Records for keys and records; Spelling says
--                  what bytes spell a name, Index what the table of names promises
--   Prelude        numbers, lists and tests that the others share
--   Tests          the theorems at concrete inputs
--
-- State and operations. A class is a record with the fields that its methods read, and a method a
-- function on that record under its own name in snake_case (GretioWebContext::sendReceiveCseq is
-- send_receive_cseq). A signal that leads to another class is a value that the method returns. An
-- exported function is a function of the globals that returns, blocks for ever, or faults by an
-- access outside the memory it may use. What Qt delivers to an event loop is a list of events; a
-- loop that uses up the list has not returned. A message box is a loop of the same kind. Pointers
-- that may be null are options, the buffers of a caller lists of their true length, C strings the
-- list of the bytes before the NUL.
--
-- Bounds. int, long and unsigned long have 32 bits, as on Windows, and char is signed; wrap-around
-- is written out. A loop over a name takes fuel, one round for each byte and at most one more,
-- which is enough since each round consumes a byte or ends. The loop over the labels of a packet
-- has the 127 rounds of the source. All other loops are structural.
--
-- Not modelled. QtZeroConf/example, the sizes and layouts of widgets, the thread and application
-- object of isolateqapp.cpp, dllmain.cpp and logging have no logic of their own. The C++ classes of
-- QtZeroConf and QtZeroConf/bonjour-sdk call the services of the system. Of Avahi only the files
-- above are modelled, without reference counts and conversions to text; its sockets, its server and
-- its query engine are not. Memory allocation does not fail.

pub mod Prelude
pub mod Qt
pub mod J2534
pub mod Socket
pub mod Auth
pub mod Finder
pub mod Window
pub mod Context
pub mod PassThru
pub mod App
pub mod Avahi
pub mod Tests
