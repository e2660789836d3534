-- ===== src/Client/PumpTests.antt =====
-- Runs of the goroutine of internal/client that reads the socket.
use gosh.Base.{[], ◌∷◌, ◌++◌, List, All, true, err, ◌≡◌, ◌≢◌, refl, ap, arith, ℕ, take}
use gosh.Base.BigEndian.{uint64, uint16, put_uint64, put_uint32}
use gosh.Crypto.Session.{encrypt, decrypt}
use gosh.Network.Packet.{packet_from_message}
use gosh.Network.Connection.{old_sequence, recv}
use gosh.Network.Tests.{tagging, dialed, unplugged, datagram}
use gosh.Client.Noise.{acts-noise}
use gosh.Client.Pump.{Act, arrived, failed, sent, closing, Port, acts, receive_mtu}

abbrev port : Port
port = record { connection = dialed; pumping = true; handed = [] }

abbrev before : List Act
before = sent unplugged 2000 (1 ∷ []) ∷ arrived 3000 datagram ∷ []

abbrev ends : Act → ℕ
ends closing = 1
ends _ = 0

open_before : All (λ a. a ≢ closing) before
open_before = (
  (λ e. let bad : 0 ≡ 1 = ap ends e in absurd (omega arith)),
  ((λ e. let bad : 0 ≡ 1 = ap ends e in absurd (omega arith)), tt),
)

handed_on : (acts tagging port before).handed ≡ (1 ∷ []) ∷ []
unfolding acts recv decrypt packet_from_message uint64 uint16 put_uint64 put_uint32 encrypt
handed_on = refl

-- The same datagram once more.
replayed :
    (recv tagging (acts tagging port before).connection 4000 (take receive_mtu datagram)).1
    ≡ err old_sequence
unfolding acts recv decrypt packet_from_message uint64 uint16 put_uint64 put_uint32 encrypt
replayed = refl

acts-noise_example :
    ((acts tagging port before).pumping ≡ true)
    × (acts tagging port (before ++ arrived 4000 datagram ∷ closing ∷ [])
        ≡ acts tagging port (before ++ closing ∷ []))
    × (acts tagging port (before ++ failed ∷ closing ∷ [])
        ≡ acts tagging port (before ++ closing ∷ []))
acts-noise_example =
    acts-noise tagging port before (closing ∷ []) 4000 datagram old_sequence refl refl open_before
      replayed
