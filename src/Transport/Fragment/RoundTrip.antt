-- ===== src/Transport/Fragment/RoundTrip.antt =====
-- Fragments of internal/transport/fragment.go through their encoding.
use gosh.Base.{ap, ◌∙◌, ℕ, ◌+◌, ◌<◌, bit_and, [], ◌∷◌, Bytes, IsU64, not, ◌==◌, ◌≡◌, ok, arith}
use gosh.Base.Bits.{bit_or_shifted, bit_and_mask, bit_and_bit}
use gosh.Base.BigEndian.{
  put_uint16, put_uint64, uint16, uint64, put_uint32, uint16-put_uint16, uint64-put_uint64,
}
use gosh.Transport.Fragment.{Fragment, combined, marshal, parse_fragment}

-- The widths of the header: 64 bits of id, 15 of number.
pub record IsFragment (f : Fragment) : Type 0 where
  pub id_fits : IsU64 f.id
  pub num_fits : f.num < 32768

combined_bits :
    (f : Fragment)
    → f.num < 32768
    → (combined f < 65536)
      × (bit_and (combined f) 0x7FFF ≡ f.num)
      × (not (bit_and (combined f) 0x8000 == 0) ≡ f.final)
combined_bits f h = ground (
  arith,
  bit_or_shifted 15 f.num 1 h,
  bit_and_mask 15 (f.num + 32768),
  bit_and_mask 15 f.num,
  bit_and_bit 15 0 1 f.num h,
  bit_and_bit 15 0 0 f.num h,
)

parse_fragment-cut :
    (k : Bytes) (a b c d e f g h x y : ℕ)
    → parse_fragment (a ∷ b ∷ c ∷ d ∷ e ∷ f ∷ g ∷ h ∷ x ∷ y ∷ k)
      ≡ ok (record {
        id = uint64 (a ∷ b ∷ c ∷ d ∷ e ∷ f ∷ g ∷ h ∷ []);
        num = bit_and (uint16 (x ∷ y ∷ [])) 0x7FFF;
        final = not (bit_and (uint16 (x ∷ y ∷ [])) 0x8000 == 0);
        contents = k;
      })
unfolding parse_fragment
parse_fragment-cut k a b c d e f g h x y = ground arith

-- A fragment of the header's widths comes back from its datagram.
pub parse_fragment-marshal : (f : Fragment) → IsFragment f → parse_fragment (marshal f) ≡ ok f
unfolding marshal put_uint64 put_uint32 put_uint16
parse_fragment-marshal f h =
    let (fits, num, final) = combined_bits f h.num_fits in
    let read : uint16 (put_uint16 (combined f)) ≡ combined f =
      uint16-put_uint16 (combined f) fits in
    parse_fragment-cut f.contents _ _ _ _ _ _ _ _ _ _ ∙ (λ i. ok (record {
      id = uint64-put_uint64 f.id h.id_fits i;
      num = (ap (λ v. bit_and v 0x7FFF) read ∙ num) i;
      final = (ap (λ v. not (bit_and v 0x8000 == 0)) read ∙ final) i;
      contents = f.contents;
    }))
