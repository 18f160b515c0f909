-- ===== src/Lib.antt =====
-- The parts of PowerGuru that read power equipment, the status pages of Outback devices, the menu of a
-- Xantrex inverter and the serial port below both, and those by which its daemon and its clients
-- speak. The definitions follow the C++ sources.
--
--   Serial            devices/serial.cc: `Serial::Read` and `Serial::Write`. Port: how it is opened, set and
--                     closed. Restore: what that leaves.
--   Outback           devices/outbackpower.cc and .h. Device: the object and its constructor. Checksum:
--                     `calcChecksum`. Page: `struct outback_mx`. Parse: `parse`. Export:
--                     `exportMeterData`. Modes and Dump: `dump`, `sendFXCommand`. Loop: `readSerial`
--                     and `main`, which read a page from the port, check it, parse it and store it.
--   Database          lib/database.h: `meter_data_t`; Format: `formatQuery`. Maria: lib/mariadb.cc. Columns,
--                     Inserts, Rows: what it sends. Postgres: lib/postgresql.cc.
--   Menu              lib/menuitem.cc and .h. Item: `MenuItem`, its constructors, `SetItem`, `SetRange`.
--                     Display: `SetDisplay`.
--   Xantrex           devices/xantrex-trace.cc and .h. Calls, User, Setup, Table: `SetDefaultValues`, with
--                     `GetItem` and `Match`. Values: `CleanUpData`, `GetValue`, `GetValues`, `GetLabel`.
--                     Panel: the buttons, `GotoMenuStart`, `GotoMenuItem`, `ReadSerial`. Meters:
--                     `PollMeters`. Print: `Dump`, `DumpAliases`.
--   Xanbus            devices/xanbus.cc and .h. Commands, Table: the commands. Panel: the methods, which are
--                     those of Xantrex.
--   Msgs              lib/msgs.cc and .h. State: the members, the cache, `XMLNode` of lib/xml.h. Create: the
--                     functions that format messages. Methods: the table of `init` and `methodGet`. Process:
--                     `process` and the functions of the table. Net: `writeNet` of lib/tcpip.cc, on which they
--                     write.
--   Network           lib/tcpip.cc and .h. Device: the object, how it is connected and closed. Receive:
--                     `anydata`, `readNet`. Packets, Messages: how the bytes of a read become messages.
--   Xml               lib/xml.cc and .h: `XMLNode`, `extractNode`, `parseMem`, over the nodes of libxml.
--   Daemon            daemon/threads.cc. Client: `client_handler`, which reads XML with Xml and answers
--                     with Commands. Serve: how it looks from outside. Sensors: `onewire_handler`,
--                     which reads Onewire and writes to Database. Rows, Stored: what it writes. Owserver:
--                     `ownet_handler`, which reads Ownet.
--   Client            client/threads.cc: the console. Dialogue: the console, Commands and Daemon.Client together.
--   Config            lib/rc.cc and .h: `parse_file`, `load_files`.
--   Commands          lib/commands.cc and .h: `createCommand`, `convertAction`, `execCommand`.
--   Ownet             devices/ownet.cc: the sensors of an owserver. Attempts: the attempts to connect.
--   Onewire           devices/onewire.cc and .h. Families: `initTable`. Device: the object, `getValue`,
--                     `setValue` and the constructor. Reading: `getBattery`, `getTemperature`.
--   Std               what the sources use of the standard library: `strtol`, `atoi`, `find`, `rfind`,
--                     `stoll`, `stof`, the print of numbers; `Run` and `Result` for exceptions and for
--                     what reads out of bounds or follows a null pointer.
--   Prelude           shared names, texts, tests and integers.
--
-- A text is the list of its bytes. A `char` is signed where the code computes with it. A field of the
-- pages is at most three digits, so no `int` overflows. A `float` is a number of tenths, of a 1 wire
-- sensor or in `PollMeters` a decimal number. Enumerations to which `parse` casts a number are integers. What the kernel
-- answers to `select` and `read` is an argument: a function from the round of the loop to the answer,
-- and for the Xantrex panel from the number of the call as well; of `select` and `write` of a socket
-- likewise, by the number of the message; so are the memory of a packet, the parser of libxml, what a client sends,
-- and what a database server answers. The words of a file are an argument, so are the names in a
-- directory and the contents of a file, and the version in a message is the text that the stream
-- prints. Memory that the code does not set is an argument too. A read of the Xantrex
-- panel has less than 100 characters. Menu indices are natural numbers,
-- which no caller leaves.
--
-- Loops that the code bounds have the bound of the code: two rounds of `Serial::Read`, 22 presses in
-- `GotoMenuStart`, five in `MenuItemMinus` and `MenuItemPlus`, eleven in `GetValue`. `sum_loop` has
-- the fuel `loop_fuel`, one for each byte that it may look at; `values_loop` the length of the text
-- and one more, since each round makes the text shorter; `parse_file` two rounds more than the file
-- has words, since each round reads a word or meets the end; `writeNet` the two rounds of the code,
-- and one more for a part; a number is printed with twenty digits at most, which holds 64 bits.
--
-- Left out: log records other than those of `dump`, sleeps, the
-- results of database queries, the look up of addresses, the client library of owserver, the
-- threads of a daemon that are not written, and what the sources compile out.
mod Prelude
pub mod Std
pub mod Database
pub mod Serial
pub mod Outback
pub mod Menu
pub mod Xantrex
pub mod Msgs
pub mod Config
pub mod Commands
pub mod Onewire
pub mod Network
pub mod Xml
pub mod Xanbus
pub mod Client
pub mod Ownet
pub mod Daemon
