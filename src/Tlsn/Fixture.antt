-- ===== src/Tlsn/Fixture.antt =====
-- crates/tlsn-demo/webproof-tlsn/src/fixture.rs: the HTTPS test server on an ephemeral local port.
-- The sockets of tokio are a parameter, as is the server of the `tlsn-server-fixture` crate behind
-- each of them.
pub mod Serving
use webproof_solana.Prelude.{
  ℕ, zero, suc, Option, none, some, List, [], ◌∷◌, Bytes, codes, Result, ok, ◌>>=◌,
}

abbrev pub fixture_json_path : Bytes
fixture_json_path = codes "/formats/json"

-- What the code takes from tokio: an error of `bind` or `local_addr` is its text, and `accept` is the
-- answer to each call of it, by its number.
pub record Tcp : Type 1 where
  pub Listener : Type 0
  pub Socket : Type 0
  pub bind : Bytes × ℕ → Result Bytes Listener
  pub local_port : Listener → Result Bytes ℕ
  pub accept : Listener → ℕ → Option Socket

module _ (tcp : Tcp) where
  -- The port of the new listener, whose connections the task below serves.
  unfoldable pub start : Result Bytes ℕ
  start = do listener ← tcp.bind (codes "127.0.0.1", 0); port ← tcp.local_port listener; ok port

  -- One round: `break` on a failure, or the socket is handed to a task of its own and the loop goes
  -- on.
  abbrev pub round : Option tcp.Socket → Option (List tcp.Socket) → Option (List tcp.Socket)
  round none rest = some []
  round (some socket) none = none
  round (some socket) (some rest) = some (socket ∷ rest)

  -- The loop of the task from a call of `accept` on, for a number of rounds: the sockets that it has
  -- handed on when it breaks, or nothing while it still runs.
  unfoldable pub serve : ℕ → tcp.Listener → ℕ → Option (List tcp.Socket)
  serve zero listener i = none
  serve (suc rounds) listener i = round (tcp.accept listener i) (serve rounds listener (suc i))
