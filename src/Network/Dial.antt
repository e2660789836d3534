-- ===== src/Network/Dial.antt =====
-- internal/network/connection.go: `dialUDP` and `Dial`; `SRTT`, `Timeout` and the averages that `Recv`
-- keeps. Resolving, the raw dial and the floats are parameters.
use gosh.Base.{
  ℕ, ◌≤◌, List, [], ◌∷◌, ◌++◌, Bytes, Bool, true, false, ltb, ◌==◌, if◌then◌else◌, Option, none,
  some, Result, ok, err, ◌≡◌, refl, arith,
}
use gosh.Base.Int.{ℤ, pos, negsuc}
use gosh.Ocb.Block.{Block}
use gosh.Ocb.Cipher.{OcbError}
use gosh.Crypto.Session.{Cipher}
use gosh.Crypto.Sealing.{new_session}
use gosh.Network.Connection.{Connection}
use gosh.Network.Connection.Budget.{dial_timeout}

-- What `rawDialUDP` does, and after how many milliseconds.
pub data RawDial : Type 0 where
  hangs : RawDial
  fails : ℕ → RawDial
  connects : ℕ → ℕ → RawDial

-- The socket returned, those closed once they come too late, and the time that the call took.
pub record Dialed : Type 0 where
  pub returned : Option ℕ
  pub abandoned : List ℕ
  pub took : ℕ

-- `select` takes either case where both are ready: `early` is whether it takes the result then.
abbrev pub in_time : ℕ → Bool → Bool
in_time after early = if after == dial_timeout then early else ltb after dial_timeout

unfoldable pub dial_udp : RawDial → Bool → Dialed
dial_udp hangs early = record { returned = none; abandoned = []; took = dial_timeout }
dial_udp (fails after) early = record {
  returned = none;
  abandoned = [];
  took = if in_time after early then after else dial_timeout;
}
dial_udp (connects after sock) early =
    if in_time after early
    then record { returned = some sock; abandoned = []; took = after }
    else record { returned = none; abandoned = sock ∷ []; took = dial_timeout }

abbrev pub sockets_of : Option ℕ → List ℕ
sockets_of none = []
sockets_of (some sock) = sock ∷ []

abbrev pub made : RawDial → List ℕ
made (connects after sock) = sock ∷ []
made _ = []

-- Whatever the raw dial does, the call is over within the bound, and a socket that it makes is
-- returned or closed, not both and not neither.
pub dial_udp_bounded :
    (raw : RawDial) (early : Bool)
    → ((dial_udp raw early).took ≤ dial_timeout)
      × (sockets_of (dial_udp raw early).returned ++ (dial_udp raw early).abandoned ≡ made raw)
unfolding dial_udp
dial_udp_bounded hangs early = (omega arith, refl)
dial_udp_bounded (fails after) early = (ground arith, refl)
dial_udp_bounded (connects after sock) early = (ground arith, ground arith)

pub data DialError : Type 0 where
  no_session : OcbError → DialError
  not_resolved : DialError
  not_dialed : DialError

abbrev connected : Option ℕ → ℕ → Cipher → Result DialError (Cipher × Connection)
connected none now cipher = err not_dialed
connected (some sock) now cipher = ok (
  cipher,
  record {
    sock = sock;
    opened = sock ∷ [];
    closed = false;
    next_seq = 0;
    expected_receiver_seq = 0;
    saved_timestamp = 0;
    saved_timestamp_received_at = 0;
    have_saved_timestamp = false;
    samples = [];
    last_heard = 0;
    last_port_choice = now;
    last_roundtrip_success = 0;
  },
)

abbrev resolved :
    Bool → Option ℕ → ℕ → Result OcbError Cipher → Result DialError (Cipher × Connection)
resolved resolves sock now (err e) = err (no_session e)
resolved resolves sock now (ok cipher) =
    if resolves then connected sock now cipher else err not_resolved

-- `Dial`, with the cipher of the connection's session. `sock` is what `dialUDP` returns.
unfoldable pub dial :
    (Bytes → Option Block) → Bytes → Bool → Option ℕ → ℕ → Result DialError (Cipher × Connection)
dial aes key resolves sock now = resolved resolves sock now (new_session aes key)

-- Go's float64. `millis` is `time.Duration(math.Ceil(x))`.
pub record Floats : Type 1 where
  pub Float : Type 0
  pub of_int : ℕ → Float
  pub add : Float → Float → Float
  pub sub : Float → Float → Float
  pub mul : Float → Float → Float
  pub div : Float → Float → Float
  pub abs : Float → Float
  pub millis : Float → ℤ

abbrev pub min_rto : ℕ
min_rto = 50

abbrev pub max_rto : ℕ
max_rto = 1000

module _ (fl : Floats) where
  open fl use {Float, of_int, add, sub, mul, div, abs, millis}

  pub record Rtt : Type 0 where
    pub rtt_hit : Bool
    pub srtt : Float
    pub rttvar : Float

  abbrev alpha : Float
  alpha = div (of_int 1) (of_int 8)

  abbrev beta : Float
  beta = div (of_int 1) (of_int 4)

  -- One measurement.
  unfoldable pub measure : ℕ → Rtt → Rtt
  measure r e =
      if e.rtt_hit
      then record {
        rtt_hit = true;
        srtt = add (mul (sub (of_int 1) alpha) e.srtt) (mul alpha (of_int r));
        rttvar = add (mul (sub (of_int 1) beta) e.rttvar) (mul beta (abs (sub e.srtt (of_int r))));
      }
      else record { rtt_hit = true; srtt = of_int r; rttvar = div (of_int r) (of_int 2) }

  -- The averages after the measurements of a connection, the newest of which stands first.
  unfoldable pub estimate : List ℕ → Rtt
  unfolding measure
  estimate [] = record { rtt_hit = false; srtt = of_int 1000; rttvar = of_int 500 }
  estimate (r ∷ rs) = measure r (estimate rs)

  abbrev clamp : ℤ → ℕ
  clamp (negsuc n) = min_rto
  clamp (pos n) = if ltb n min_rto then min_rto else if ltb max_rto n then max_rto else n

  -- `Timeout`
  unfoldable pub timeout : Connection → ℕ
  unfolding estimate
  timeout c = let e = estimate c.samples in clamp (millis (add e.srtt (mul (of_int 4) e.rttvar)))
