-- ===== src/Network/Packet.antt =====
-- internal/network/packet.go.
use gosh.Base.Bits.{bit_or-lt, shifted_bit_or, bit_and_mask, bit_and_bit, zero-bit_or}
use gosh.Base.{
  IsU64, ℕ, ◌+◌, ◌-◌, ◌*◌, ◌%◌, ◌^◌, ◌≤◌, ◌<◌, bit_and, bit_or, [], ◌∷◌, ◌++◌, Bytes, length, take,
  drop, false, not, ltb, ◌==◌, if◌then◌else◌, ◌≡◌, ◌≢◌, refl, ap, ◌∙◌, Result, ok, err, arith,
}
use gosh.Base.BigEndian.{put_uint16, uint16, uint16-put_uint16}
use gosh.Crypto.Session.{Message}

pub data Direction : Type 0 where
  to_server to_client : Direction

abbrev pub direction_bit : Direction → ℕ
direction_bit to_server = 0
direction_bit to_client = 1

abbrev pub direction_mask : ℕ
direction_mask = 9223372036854775808

abbrev pub sequence_mask : ℕ
sequence_mask = 9223372036854775807

pub record Packet : Type 0 where
  pub seq : ℕ
  pub direction : Direction
  pub timestamp : ℕ
  pub timestamp_reply : ℕ
  pub payload : Bytes

abbrev pub ts_missing : ℕ
ts_missing = 0xFFFF

pub data PacketError : Type 0 where
  short_packet : PacketError

abbrev pub direction_of : ℕ → Direction
direction_of nonce = if not (bit_and nonce direction_mask == 0) then to_client else to_server

unfoldable pub packet_from_message : Message → Result PacketError Packet
packet_from_message m =
    if ltb (length m.text) 4
    then err short_packet
    else ok (record {
      seq = bit_and m.nonce_val sequence_mask;
      direction = direction_of m.nonce_val;
      timestamp = uint16 (take 2 m.text);
      timestamp_reply = uint16 (take 2 (drop 2 m.text));
      payload = drop 4 m.text;
    })

unfoldable pub to_message : Packet → Message
to_message p = record {
  nonce_val = bit_or (direction_bit p.direction * 2 ^ 63 % 2 ^ 64) (bit_and p.seq sequence_mask);
  text = put_uint16 p.timestamp ++ put_uint16 p.timestamp_reply ++ p.payload;
}

-- `now` is in milliseconds.
unfoldable pub timestamp16 : ℕ → ℕ
timestamp16 now = let ts = now % 65536 in if ts == ts_missing then (ts + 1) % 65536 else ts

unfoldable pub timestamp_diff : ℕ → ℕ → ℕ
timestamp_diff new old = (new + 65536 - old) % 65536

-- The widths of a packet: 63 bits of number, 16 of each timestamp.
pub record IsPacket (p : Packet) : Type 0 where
  pub seq_fits : p.seq < 9223372036854775808
  pub timestamp_fits : p.timestamp < 65536
  pub timestamp_reply_fits : p.timestamp_reply < 65536

pub nonce_val-eq :
    (d : Direction) (s : ℕ)
    → s < 9223372036854775808
    → bit_or (direction_bit d * 2 ^ 63 % 2 ^ 64) (bit_and s sequence_mask)
      ≡ direction_bit d * 9223372036854775808 + s
nonce_val-eq to_server s h = omega (arith, zero-bit_or (bit_and s sequence_mask), bit_and_mask 63 s)
nonce_val-eq to_client s h = omega (
  arith,
  bit_and_mask 63 s,
  shifted_bit_or 63 (bit_and s sequence_mask) 1 (omega (arith, bit_and_mask 63 s)),
)

nonce-seq :
    (d : Direction) (s : ℕ)
    → s < 9223372036854775808
    → bit_and (direction_bit d * 9223372036854775808 + s) sequence_mask ≡ s
nonce-seq to_server s h = omega (arith, bit_and_mask 63 (0 * 9223372036854775808 + s))
nonce-seq to_client s h = omega (arith, bit_and_mask 63 (1 * 9223372036854775808 + s))

nonce-direction :
    (d : Direction) (s : ℕ)
    → s < 9223372036854775808
    → direction_of (direction_bit d * 9223372036854775808 + s) ≡ d
nonce-direction to_server s h = ground (arith, bit_and_bit 63 0 0 s h)
nonce-direction to_client s h = ground (arith, bit_and_bit 63 0 1 s h)

packet_from_message-cut :
    (nonce a b c d : ℕ) (payload : Bytes)
    → packet_from_message (record { nonce_val = nonce; text = a ∷ b ∷ c ∷ d ∷ payload })
      ≡ ok (record {
        seq = bit_and nonce sequence_mask;
        direction = direction_of nonce;
        timestamp = uint16 (a ∷ b ∷ []);
        timestamp_reply = uint16 (c ∷ d ∷ []);
        payload = payload;
      })
unfolding packet_from_message
packet_from_message-cut nonce a b c d payload =
    let long : ltb (length (a ∷ b ∷ c ∷ d ∷ payload)) 4 ≡ false = ground arith in rw long refl

-- A packet of these widths comes back from its message.
pub packet_from_message-to_message :
    (p : Packet) → IsPacket p → packet_from_message (to_message p) ≡ ok p
unfolding to_message put_uint16
packet_from_message-to_message p h = packet_from_message-cut _ _ _ _ _ p.payload ∙ (λ i.
    ok (record {
      seq =
          (ap (λ v. bit_and v sequence_mask) (nonce_val-eq p.direction p.seq h.seq_fits)
              ∙ nonce-seq p.direction p.seq h.seq_fits)
            i;
      direction =
          (ap (λ v. direction_of v) (nonce_val-eq p.direction p.seq h.seq_fits)
              ∙ nonce-direction p.direction p.seq h.seq_fits)
            i;
      timestamp = uint16-put_uint16 p.timestamp h.timestamp_fits i;
      timestamp_reply = uint16-put_uint16 p.timestamp_reply h.timestamp_reply_fits i;
      payload = p.payload;
    }))

-- The time measured between two timestamps less than 65535 milliseconds apart is the time that passed,
-- up to a millisecond for the value that stands for no timestamp, and no timestamp is that value.
pub timestamp_diff-timestamp16 :
    (t d : ℕ)
    → d < 65535
    → (timestamp_diff (timestamp16 (t + d)) (timestamp16 t) ≤ d + 1)
      × (d ≤ timestamp_diff (timestamp16 (t + d)) (timestamp16 t) + 1)
      × (timestamp16 t ≢ ts_missing)
unfolding timestamp_diff timestamp16
timestamp_diff-timestamp16 t d h = ground arith

pub packet_from_message-seq :
    (m : Message) (p : Packet) → packet_from_message m ≡ ok p → p.seq < 9223372036854775808
unfolding packet_from_message
packet_from_message-seq m p e = ground (arith, bit_and_mask 63 m.nonce_val)

pub to_message-IsU64 : (p : Packet) → IsU64 (to_message p).nonce_val
unfolding to_message
to_message-IsU64 p =
    bit_or-lt 64 (direction_bit p.direction * 2 ^ 63 % 2 ^ 64) (bit_and p.seq sequence_mask)
      (omega arith) (omega (arith, bit_and_mask 63 p.seq))
