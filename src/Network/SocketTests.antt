-- ===== src/Network/SocketTests.antt =====
-- Runs of the sockets of internal/network.
use gosh.Base.{◌≤◌, [], ◌∷◌, ◌++◌, ◌≡◌, refl, false, arith}
use gosh.Network.Connection.{Connection, send, close}
use gosh.Network.Connection.Budget.{dial_timeout}
use gosh.Network.Connection.Sockets.{here, sent, Uses-opened}
use gosh.Network.Dial.{connects, dial_udp, sockets_of, made, dial_udp_bounded}
use gosh.Network.Tests.{tagging, dialed, unplugged}

abbrev after_send : Connection
after_send = (send tagging dialed unplugged 20000 (1 ∷ [])).connection

Uses-opened_example : (after_send.opened ≡ after_send.sock ∷ []) × ((close after_send).opened ≡ [])
Uses-opened_example =
    Uses-opened tagging dialed after_send refl (sent here unplugged 20000 (1 ∷ []) (omega arith))

dial_udp_bounded_example :
    ((dial_udp (connects 1600 5) false).took ≤ dial_timeout)
    × (sockets_of (dial_udp (connects 1600 5) false).returned
          ++ (dial_udp (connects 1600 5) false).abandoned
        ≡ made (connects 1600 5))
dial_udp_bounded_example = dial_udp_bounded (connects 1600 5) false
