-- ===== src/Server/NoLeak.antt =====
-- mcstatus/server.py: the number of open sockets before and after a request.
use mcstatus_rust.Prelude.Keeps.{Keeps}
use mcstatus_rust.Client.Java.{Connection}
