-- ===== src/Client/Events/Refused.antt =====
-- src/transport/client.cpp with src/transport/raw_socket.cpp: a client whose connection is refused.
use my_messenger.Prelude.{ℕ, suc, true, false, List, [], ◌∷◌, some, ◌≡◌, refl, arith}
use my_messenger.Prelude.Result.{ok}
use my_messenger.Transport.{minus_suc}
use my_messenger.Transport.Socket.{
  Socket, tcp, ClientCalls, setup_connection, tcp_client, under_way, opening, forget,
}
use my_messenger.Server.Events.{Handshake}
use my_messenger.Crypto.{OpenSsl}
use my_messenger.Client.Events.{
  ClientNode, ClientEvent, connect, run_once, run_event_loop, with_connected,
}

module _ (o : OpenSsl) where
  -- A loop that does not know the descriptor does nothing on any event, and waits while there is one.
  waits :
      (events : List ClientEvent) (n : ClientNode o)
      → n.watched ≡ false
      → n.app.connected ≡ true
      → run_event_loop o events n ≡ (ok false, n)
  unfolding run_event_loop run_once
  waits [] n unknown up = ground (arith, up)
  waits (event ∷ events) n unknown up = ground (arith, up, unknown, waits events n unknown up)

  refused_setup :
      (calls : ClientCalls) (s : Socket) (fd errno : ℕ)
      → s.type ≡ tcp
      → calls.socket ≡ some fd
      → calls.address_taken ≡ true
      → calls.refused ≡ some (suc errno)
      → under_way (suc errno) ≡ false
      → setup_connection calls s
        ≡ (minus_suc errno, record s { inner = opening (some fd) (forget s.inner); fd = some fd })
  unfolding setup_connection tcp_client
  refused_setup calls s fd errno t opened taken refused final =
      ground (arith, t, opened, taken, refused, final)

  -- Where a TCP socket is opened and its connection fails with an error that is not one of a
  -- connection under way, connect answers false and leaves the descriptor with the client; the
  -- client's event loop, if it had no descriptor before, then waits for ever, whatever events come, and
  -- does nothing.
  pub setup_connection-run_event_loop :
      (calls : ClientCalls) (s : Socket) (fd errno : ℕ) (n : ClientNode o) (answer : Handshake)
      (events : List ClientEvent)
      → s.type ≡ tcp
      → calls.socket ≡ some fd
      → calls.address_taken ≡ true
      → calls.refused ≡ some (suc errno)
      → under_way (suc errno) ≡ false
      → n.watched ≡ false
      → let (code, s') = setup_connection calls s in
        let (r, n') = connect o code s'.fd answer n in
        (r ≡ ok false) × (run_event_loop o events n' ≡ (ok false, n'))
  unfolding connect
  setup_connection-run_event_loop calls s fd errno n answer events t opened taken refused final
        unknown =
      rw (refused_setup calls s fd errno t opened taken refused final)
        (refl, waits events (with_connected o true n) unknown refl)
