-- ===== src/Async/Client/Runs.antt =====
-- mcstatus/_protocol/*_client.py: the asynchronous clients and the synchronous ones.
use mcstatus_rust.Prelude.{ℕ, Option}
use mcstatus_rust.Prelude.Int.{ℤ}
use mcstatus_rust.Prelude.Exec
use mcstatus_rust.Io.Writer
use mcstatus_rust.Io.Reader
use mcstatus_rust.Async.Writer.{write_bytearray}
use mcstatus_rust.Async.Reader.{read_bytearray}
use mcstatus_rust.Prelude.Exec.{Exec, Result}
use mcstatus_rust.Io.Text.{Str, Bytes}
use mcstatus_rust.Async.Task.{Runs, Runs-bind, Runs-lift, run_rules, lift, ◌>>=◌}
use mcstatus_rust.Async.Writer.Runs as Writers
use mcstatus_rust.Async.Reader.Runs as Readers
use mcstatus_rust.Net.{Address}
use mcstatus_rust.Client.Java
use mcstatus_rust.Client.Java.{Connection}
use mcstatus_rust.Client.Query
use mcstatus_rust.Client.Legacy
use mcstatus_rust.Response.Status.{RawJavaResponse}
use mcstatus_rust.Async.Client.{
  AsyncConnection, java_handshake, test_ping, java_read_status, query_handshake, read_query,
  legacy_read_status,
}

-- The reads and writes of the asynchronous connection do what those of the other one do.
pub record IsConnection {S Op : Type 0} {Answer : Op → Type 0}
    (serve : (op : Op) → Exec S (Answer op)) (a : AsyncConnection Op Answer) (c : Connection S)
    : Type 0 where
  pub reader : Readers.IsServed serve a.reader c.reader
  pub writer : Writers.IsServed serve a.writer c.writer

module _ {S Op : Type 0} {Answer : Op → Type 0} {serve : (op : Op) → Exec S (Answer op)}
    {a : AsyncConnection Op Answer} {c : Connection S} (h : IsConnection serve a c)
    {Latency : Type 0} (latency : Latency) where
  pub Runs-java_handshake :
      (version : ℤ) (address : Address)
      → Runs serve (java_handshake a version address) (Java.handshake c latency version address)
  unfolding java_handshake Java.handshake
  Runs-java_handshake version address = search (run_rules, Writers.Runs-write_bytearray h.writer)

  -- A packet is sent and an answer is read.
  Runs-exchange :
      {A : Type 0} (packet : Result Bytes) (answer : Bytes → Result A)
      → Runs serve
          (lift packet >>= (λ request.
            write_bytearray a.writer request
            >>= (λ _. read_bytearray a.reader >>= (λ response. lift (answer response)))))
          (Exec.◌>>=◌ (Exec.lift packet) (λ request.
            Exec.◌>>=◌ (Writer.write_bytearray c.writer request) (λ _.
              Exec.◌>>=◌
                (Reader.read_bytearray c.reader)
                (λ response. Exec.lift (answer response)))))
  Runs-exchange packet answer = Runs-bind _ _ _ _ (Runs-lift packet) (λ request.
      Runs-bind _ _ _ _ (Writers.Runs-write_bytearray h.writer request) (λ _.
        Runs-bind _ _ _ _ (Readers.Runs-read_bytearray h.reader)
          (λ response. Runs-lift (answer response))))

  pub Runs-test_ping :
      (ping_token : ℤ)
      → Runs serve (test_ping a latency ping_token) (Java.test_ping c latency ping_token)
  unfolding test_ping Java.test_ping
  Runs-test_ping ping_token = Runs-exchange _ _

  pub Runs-java_read_status :
      (decimal : ℕ → Option ℕ) (loads : Str → Result RawJavaResponse)
      → Runs serve
          (java_read_status a latency decimal loads)
          (Java.read_status c latency decimal loads)
  unfolding java_read_status Java.read_status
  Runs-java_read_status decimal loads = Runs-exchange _ _

  pub Runs-query_handshake :
      (session_id : ℕ) (decimal : ℕ → Option ℕ)
      → Runs serve (query_handshake a session_id decimal) (Query.handshake c session_id decimal)
  unfolding query_handshake Query.handshake
  Runs-query_handshake session_id decimal = search (run_rules, h.writer.writes, h.reader.reads)

  pub Runs-read_query :
      (session_id : ℕ) (decimal : ℕ → Option ℕ) (challenge : ℤ)
      → Runs serve
          (read_query a session_id decimal challenge)
          (Query.read_query c session_id decimal challenge)
  unfolding read_query Query.read_query
  Runs-read_query session_id decimal challenge = search (run_rules, h.writer.writes, h.reader.reads)

  pub Runs-legacy_read_status :
      (decimal : ℕ → Option ℕ)
      → Runs serve (legacy_read_status a decimal latency) (Legacy.read_status decimal c latency)
  unfolding legacy_read_status Legacy.read_status
  Runs-legacy_read_status decimal =
      search (run_rules, h.writer.writes, h.reader.reads, Readers.Runs-read_value h.reader) depth 9
