-- ===== src/Transport/Delivery.antt =====
-- internal/transport/fragment.go: an instruction from `makeFragments` through the datagrams to
-- `assembly.add`.
use gosh.Base.{
  take-long, inr, inl, Bool-cases, IsU64, ℕ, zero, suc, ◌+◌, ◌-◌, ◌*◌, ◌%◌, ◌≤◌, ◌<◌, List, [], ◌∷◌,
  ◌++◌, map, Bytes, length, take, drop, append_assoc, length-append, take-append-drop, length-drop,
  true, false, ltb, ◌≡◌, refl, sym, ap, ◌∙◌, some, ok, ◌>>=◌, arith,
}
use gosh.Transport.Error.{uncompressed, max_uncompressed, Zlib, uncompress}
use gosh.Transport.Fragment.{
  make_fragments, frag_header_len, renumber, Fragmenter, Fragment, marshal, make_fragments_loop,
}
use gosh.Transport.Assembly.{Assembly}
use gosh.Transport.Assembly.InOrder.{
  gathering, IsReady, idle, busy, contents_of, contents_of-append, ingest_all, waiting, IsDelivered,
  ingest_all-next, ingest_all-final,
}

make_fragments_loop-last :
    (fuel : ℕ) (z : Zlib) (id chunk : ℕ) (payload : Bytes) (pre : List Fragment) (a : Assembly)
    → IsU64 id
    → IsReady id pre a
    → length pre < 32768
    → length payload ≤ chunk
    → (fs : List Fragment) × (make_fragments_loop (suc fuel) id (length pre) chunk payload
        ≡ some fs)
      × IsDelivered z id a fs (contents_of pre ++ payload)
unfolding make_fragments_loop
make_fragments_loop-last fuel z id chunk payload pre a u r n s =
    let last : ltb chunk (length payload) ≡ false = ground arith in
    (
      record { id = id; num = length pre; final = true; contents = payload } ∷ [],
      rw last refl,
      (0, _, ingest_all-final z id pre a payload u n r, refl, refl),
    )

make_fragments_loop-more :
    (fuel id num num' chunk : ℕ) (payload : Bytes) (fs : List Fragment)
    → ltb chunk (length payload) ≡ true
    → (num + 1) % 65536 ≡ num'
    → make_fragments_loop fuel id num' chunk (drop chunk payload) ≡ some fs
    → make_fragments_loop (suc fuel) id num chunk payload
      ≡ some (record { id = id; num = num; final = false; contents = take chunk payload } ∷ fs)
unfolding make_fragments_loop
make_fragments_loop-more fuel id num num' chunk payload fs more next cut = rw (more, next, cut) refl

make_fragments_loop-ingest_all :
    (fuel k : ℕ) (z : Zlib) (id chunk : ℕ) (payload : Bytes) (pre : List Fragment) (a : Assembly)
    → IsU64 id
    → IsReady id pre a
    → 1 ≤ chunk
    → length payload < fuel
    → length payload ≤ chunk + k * chunk
    → length pre + k < 32768
    → (fs : List Fragment) × (make_fragments_loop fuel id (length pre) chunk payload ≡ some fs)
      × IsDelivered z id a fs (contents_of pre ++ payload)
unfolding make_fragments_loop
make_fragments_loop-ingest_all zero k z id chunk payload pre a u r c e s n = absurd (omega arith)
make_fragments_loop-ingest_all (suc fuel) zero z id chunk payload pre a u r c e s n =
    make_fragments_loop-last fuel z id chunk payload pre a u r (omega arith) (omega arith)
make_fragments_loop-ingest_all (suc fuel) (suc k) z id chunk payload pre a u r c e s n =
    elim (Bool-cases (ltb chunk (length payload))) [
      | inl more ↦
          let f : Fragment = record {
            id = id;
            num = length pre;
            final = false;
            contents = take chunk payload;
          } in
          let longer : chunk < length payload = ground arith in
          let next : (length pre + 1) % 65536 ≡ length (pre ++ f ∷ []) =
            omega (arith, length-append pre (f ∷ [])) in
          let whole : contents_of (pre ++ f ∷ []) ++ drop chunk payload
              ≡ contents_of pre ++ payload =
            rw (contents_of-append pre f) (
              append_assoc (contents_of pre) (take chunk payload) (drop chunk payload)
              ∙ ap (λ b. contents_of pre ++ b) (take-append-drop chunk payload)) in
          let (fs, cut, (m, a', run, size, no_id)) =
            make_fragments_loop-ingest_all fuel k z id chunk (drop chunk payload) (pre ++ f ∷ [])
              (gathering id (pre ++ f ∷ [])) u (busy _) c (omega (arith, length-drop chunk payload))
              (omega (arith, length-drop chunk payload))
              (omega (arith, length-append pre (f ∷ []))) in
          (
            f ∷ fs,
            make_fragments_loop-more fuel id (length pre) (length (pre ++ f ∷ [])) chunk payload fs
                more next cut,
            (
              suc m,
              a',
              ingest_all-next z id pre a (take chunk payload) (map marshal fs) u (omega arith) r
                  (rw (sym whole) run),
              omega (arith, size),
              no_id,
            ),
          )
      | inr last ↦
          make_fragments_loop-last fuel z id chunk payload pre a u r (omega arith) (ground arith)
    ]

-- What internal/transport relies on in compress/zlib: a reader gives back what the writer was
-- given, up to the limit.
pub record IsZlib (z : Zlib) : Type 0 where
  pub read-compress : (b : Bytes) (n : ℕ) → z.read (z.compress b) n ≡ ok (take n b)

renumber-IsU64 :
    (fr : Fragmenter) (payload : Bytes) (mtu : ℕ)
    → IsU64 fr.next_id
    → IsU64 (renumber fr payload mtu).next_id
unfolding renumber
renumber-IsU64 fr payload mtu h = ground arith

uncompress-compress :
    (z : Zlib)
    → IsZlib z
    → (b : Bytes) → length b ≤ max_uncompressed
    → (uncompress z (z.compress b) >>= λ out. ok (some out)) ≡ ok (some b)
unfolding uncompress uncompressed
uncompress-compress z h b m =
    let short : ltb max_uncompressed (length b) ≡ false = ground arith in
    rw
      (
        h.read-compress b (max_uncompressed + 1),
        take-long (max_uncompressed + 1) b (omega arith),
        short,
      )
      refl

-- An instruction within the decompression limit is cut into fragments, for an MTU above the header's
-- length and as long as their numbers fit the header. The datagrams, in order, make an assembly that
-- holds no part of an instruction give nothing until the last of them has come, and then the
-- instruction, and leave it ready for the next.
pub make_fragments-ingest_all :
    (z : Zlib) (fr : Fragmenter) (instruction : Bytes) (mtu : ℕ) (a : Assembly)
    → IsZlib z
    → IsU64 fr.next_id
    → a.have_id ≡ false
    → frag_header_len < mtu
    → length (z.compress instruction) ≤ 32768 * (mtu - frag_header_len)
    → length instruction ≤ max_uncompressed
    → (frags : List Fragment) × (n : ℕ) × (a' : Assembly) × (make_fragments z fr instruction mtu
        ≡ some (renumber fr (z.compress instruction) mtu, frags))
      × (length frags ≡ n + 1)
      × (ingest_all z a (map marshal frags) ≡ (a', waiting n (ok (some instruction))))
      × (a'.have_id ≡ false)
unfolding make_fragments
make_fragments-ingest_all z fr instruction mtu a h u i c s m =
    let payload = z.compress instruction in
    let fr' = renumber fr payload mtu in
    let (frags, cut, (n, a', run, size, no_id)) =
      make_fragments_loop-ingest_all (length payload + 1) 32767 z fr'.next_id
        (mtu - frag_header_len) payload [] a (renumber-IsU64 fr payload mtu u) (idle i)
        (omega arith) (omega arith) (omega arith) (omega arith) in
    let wide : ltb mtu frag_header_len ≡ false = ground arith in
    (
      frags,
      n,
      a',
      rw (wide, cut) refl,
      size,
      run ∙ ap (λ r. (a', waiting n r)) (uncompress-compress z h instruction m),
      no_id,
    )
