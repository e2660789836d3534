-- ===== src/Transport/Fragment.antt =====
-- internal/transport/fragment.go: `fragment`, its two directions, and the `fragmenter`.
pub mod RoundTrip
use gosh.Base.{
  ℕ, zero, suc, ◌+◌, ◌-◌, ◌%◌, bit_and, bit_or, List, [], ◌∷◌, ◌++◌, Bytes, length, take, drop,
  Bool, true, false, not, ◌||◌, ltb, ◌==◌, if◌then◌else◌, equal, Option, none, some, Result, ok,
  err,
}
use gosh.Base.BigEndian.{put_uint16, put_uint64, uint16, uint64}
use gosh.Transport.Error.{TransportError, short_fragment, Zlib}
use mathlib.Core.Option

abbrev pub frag_header_len : ℕ
frag_header_len = 10

pub record Fragment : Type 0 where
  pub id : ℕ
  pub num : ℕ
  pub final : Bool
  pub contents : Bytes

abbrev pub combined : Fragment → ℕ
combined f = if f.final then bit_or f.num 0x8000 else f.num

unfoldable pub marshal : Fragment → Bytes
marshal f = put_uint64 f.id ++ put_uint16 (combined f) ++ f.contents

unfoldable pub parse_fragment : Bytes → Result TransportError Fragment
parse_fragment b =
    if ltb (length b) frag_header_len
    then err short_fragment
    else (let combined = uint16 (take 2 (drop 8 b)) in
        ok (record {
          id = uint64 (take 8 b);
          num = bit_and combined 0x7FFF;
          final = not (bit_and combined 0x8000 == 0);
          contents = drop 10 b;
        }))

pub record Fragmenter : Type 0 where
  pub next_id : ℕ
  pub last_payload : Bytes
  pub last_mtu : ℕ

-- The loop of `makeFragments`: `num` is a uint16. `none` is a loop that ran out of rounds.
unfoldable pub make_fragments_loop : ℕ → ℕ → ℕ → ℕ → Bytes → Option (List Fragment)
make_fragments_loop zero id num chunk payload = none
make_fragments_loop (suc fuel) id num chunk payload =
    let rest = make_fragments_loop fuel id ((num + 1) % 65536) chunk (drop chunk payload) in
    if ltb chunk (length payload)
    then Option.map
        (◌∷◌ (record { id = id; num = num; final = false; contents = take chunk payload })) rest
    else some (record { id = id; num = num; final = true; contents = payload } ∷ [])

-- The id is new when the bytes or the MTU are.
unfoldable pub renumber : Fragmenter → Bytes → ℕ → Fragmenter
renumber fr payload mtu =
    if not (equal payload fr.last_payload) || not (mtu == fr.last_mtu)
    then record {
      next_id = (fr.next_id + 1) % 18446744073709551616;
      last_payload = payload;
      last_mtu = mtu;
    }
    else fr

-- `none` where the source does not return: below the header's length the slice bounds are
-- negative, which panics, and at it the chunks are empty and the loop makes no progress.
unfoldable pub make_fragments : Zlib → Fragmenter → Bytes → ℕ → Option (Fragmenter × List Fragment)
unfolding make_fragments_loop renumber
make_fragments z fr instruction mtu =
    let payload = z.compress instruction in
    let fr' = renumber fr payload mtu in
    if ltb mtu frag_header_len
    then none
    else Option.map (λ frags. (fr', frags))
        (make_fragments_loop (length payload + 1) fr'.next_id 0 (mtu - frag_header_len) payload)
