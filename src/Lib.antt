-- ===== src/Lib.antt =====
-- A verification library of mcstatus, a Python library that asks Minecraft servers for their status.
--
-- The program's parts, and the files that model them:
--   mcstatus/_protocol/io/base_io.py   Io.Twos (two's complement), Io.Struct (the module `struct`),
--                                      Io.Text (Latin-1 and UTF-8), Io.Writer, Io.Reader, and the
--                                      asynchronous Async.Writer, Async.Reader
--   mcstatus/_protocol/io/buffer.py    Io.Buffer
--   mcstatus/_protocol/io/connection.py  Io.Connection, Io.Connection.Socket, Async.Connection
--   mcstatus/motd/components.py        Motd.Components, Motd.Web
--   mcstatus/motd/_motd.py             Motd.Parse, and the loop of `simplify` in Motd.Simplify
--   mcstatus/motd/_simplifies.py       Motd.Simplify, Motd.Squash
--   mcstatus/motd/_transformers.py     Motd.Transform, Motd.Transform.Html, Motd.Colors
--   mcstatus/_utils                    Utils, Async.Task.Context (`retry`), Utils.Deprecation
--   mcstatus/_net                      Net, Async.Net
--   mcstatus/responses/forge.py        Response.Forge.Optimized, Response.Forge.Decode
--   mcstatus/responses                 Response.Status (java.py), Response.Query, Response.Bedrock,
--                                      Response.Legacy, Response.Strings (Python's `strip`, `split`, `int`)
--   mcstatus/_protocol/*_client.py     Client.Java, Client.Query, Client.Legacy, Client.Bedrock,
--                                      Async.Client
--   mcstatus/server.py                 Server, Server.Requests, Async.Server
--   mcstatus/__main__.py               Command.Output, Command.Commands, Command.Main, Command.Wiring
--
-- A command looks up a server and makes a request of it. A request opens a connection and lets a client
-- try, and try again; the client writes a packet to a new buffer, sends its bytes over the connection,
-- reads the answer and builds a response; the description in it is parsed as a message, which the user
-- simplifies and transforms. `BaseSyncReader` and `BaseSyncWriter` are the records `Reader` and `Writer`
-- of one abstract method, and the methods take the record; the buffer, the connections and the text of
-- the Forge data fill it. Their specification is a stream of bytes (Io.Reader.Stream) and a sink
-- (Io.Writer.Encode): `IsReader` and `IsWriter` say that a state, seen as a stream or a sink, behaves as
-- that; `IsDuplex` (Client.Java.Duplex) says it of a connection.
--
-- Conventions. A method is a function from its state to a result and a state (Prelude.Exec), so what
-- was done before a raise stays done; an exception is an element of `Exc`, by its class and without
-- its message. A coroutine is a task (Async.Task): a tree that stops at each operation that it awaits
-- and goes on with what the operation gives or raises; `run` serves its operations one after the other,
-- and `Runs` says that a task, so run, does what a method does. A text is the list of its code
-- points, and bytes are a list of numbers below 256. Numbers are natural; an integer is `pos n` or
-- `negsuc n`, which stands for -(n + 1).
--
-- Fuel. `_write_varuint` gets one round more than the number has bits and `_read_varuint` its own byte
-- limit; `simplify` gets one round more than the message has components; a TCP read gets as many
-- rounds as bytes; `read_ascii` takes the rounds as an argument, and the query parser gives it one
-- more than the answer has bytes; `udp_read` takes them as an argument. A round beyond that raises
-- `out_of_rounds`, which is no exception of Python. A repeated group of a regular expression gets as many
-- rounds as there are characters.
--
-- Parameters. `urllib.parse`, `ipaddress` and `dns` are the records `Net.Libraries` and
-- `Async.Net.AsyncResolver`; the sockets of `socket`, `asyncio` and `asyncio_dgram`, whose timeouts are
-- among what they raise, are the records `Io.Connection.Socket.Sockets` and `Async.Connection.AsyncSockets`;
-- `json.loads`, the clock and the random numbers are `Server.Requests.Outside`; what `argparse` gives,
-- `print`, `json.dump` and the formatting of numbers and exceptions are arguments of the commands; so are
-- the version that is installed, the table of Unicode's decimal digits, and the order in which Python
-- walks a set.
--
-- Not modelled: the formats char, float, double and half; `as_dict`; the texts of warnings and
-- exceptions, and filters that make errors of warnings; the modules of mcstatus/_compat, which only
-- re-export names and warn; JSON values of types that the code does not expect; the configuration of the
-- documentation in docs; the warning of `resolve_ip` on macOS; the collection of objects, which
-- closes a socket that was dropped without a `close`. `struct.calcsize` is that of a platform with a
-- `long` of 8 bytes.
pub mod Prelude
pub mod Io
pub mod Motd
pub mod Utils
pub mod Net
pub mod Client
pub mod Async
pub mod Server
pub mod Command
pub mod Response
pub mod Tests
