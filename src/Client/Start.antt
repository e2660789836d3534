-- ===== src/Client/Start.antt =====
-- internal/client/client.go: `New`, and `Run` up to its loop, over `Dial` of internal/network.
use gosh.Base.{
  ok_inj, sym, List, ap, ℕ, [], ◌∷◌, Bool, false, true, ◌==◌, if◌then◌else◌, Option, none, some,
  Result, ok, err, ◌≡◌,
}
use gosh.Base.Int.{ℤ, pos}
use gosh.Wire.Messages.{resize_event}
use gosh.Statesync.UserStream.{push_resize}
use gosh.Osc52.Policy.{Policy}
use gosh.Osc52.Filter.{Filter}
use gosh.Crypto.Session.{Cipher}
use gosh.Network.Connection.{Connection, close}
use gosh.Network.Dial.{DialError}
use gosh.Transport.Error.{Zlib}
use gosh.Transport.Sender.{new_sender}
use gosh.Transport.Receiver.{new_transport}
use gosh.Client.Render.{clip_in}
use gosh.Client.Run.{Config, Session, Turn, Ending, first_size, run_loop}

-- The fields of `Config` that `New` looks at: `size` is the function `Size`, of the time, and `none` the
-- nil function.
pub record Settings : Type 0 where
  pub size : Option (ℕ → ℤ × ℤ)
  pub disable_escape : Bool
  pub clipboard : Policy
  pub shutdown_timeout : ℕ

-- A session, its connection and the filter of what comes from the server.
pub record Client : Type 0 where
  pub config : Config
  pub size : ℕ → ℤ × ℤ
  pub session : Session
  pub cipher : Cipher
  pub connection : Connection
  pub clip : Filter

abbrev size_or_default : Option (ℕ → ℤ × ℤ) → ℕ → ℤ × ℤ
size_or_default none now = (pos 80, pos 24)
size_or_default (some size) now = size now

abbrev timeout_or_default : ℕ → ℕ
timeout_or_default t = if t == 0 then 3000 else t

abbrev with_connection :
    Settings → ℕ → Result DialError (Cipher × Connection) → Result DialError Client
with_connection settings now (err e) = err e
with_connection settings now (ok (cipher, connection)) = ok (record {
  config = record {
    disable_escape = settings.disable_escape;
    shutdown_timeout = timeout_or_default settings.shutdown_timeout;
  };
  size = size_or_default settings.size;
  session = record {
    transport = new_transport now;
    clip_in = clip_in settings.clipboard;
    escape_pending = false;
    quit_requested = false;
    shutdown_from = 0;
    fatal = false;
    ctx_done = true;
  };
  cipher = cipher;
  connection = connection;
  clip = gosh.Osc52.Filter.new settings.clipboard;
})

-- `New`, on what `network.Dial` returns.
unfoldable pub new_client :
    Settings → ℕ → Result DialError (Cipher × Connection) → Result DialError Client
new_client settings now dialed = with_connection settings now dialed

-- `Run`: the size first, then the loop over a schedule; the socket is closed however it ends. `used` is
-- what the sends and the reads of the loop make of the connection.
unfoldable pub run :
    Zlib → Client → (Connection → Connection) → ℕ → List Turn → Connection × Session × Option Ending
unfolding close run_loop
run z c used now turns =
    let (width, height) = c.size now in
    let (s, ending) = run_loop z c.config (first_size c.session width height) turns in
    (close (used c.connection), s, ending)

-- The first event of a new session is the size of the terminal, and nothing else is there before the
-- loop.
pub new_client-first_size :
    (settings : Settings) (now : ℕ) (dialed : Result DialError (Cipher × Connection)) (c : Client)
    (width height : ℤ)
    → new_client settings now dialed ≡ ok c
    → (first_size c.session width height).transport.sender.current_state.events
      ≡ resize_event width height ∷ []
unfolding new_client push_resize new_sender
new_client-first_size settings now (err e) c width height h = absurd cc
new_client-first_size settings now (ok (cipher, connection)) c width height h =
    ap (λ (d : Client). (first_size d.session width height).transport.sender.current_state.events)
      (sym (ok_inj h))
