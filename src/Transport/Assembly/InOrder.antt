-- ===== src/Transport/Assembly/InOrder.antt =====
-- Fragments of one instruction that arrive in order.
use gosh.Base.{
  IsU64, ℕ, zero, suc, ◌+◌, ◌-◌, ◌<◌, List, [], ◌∷◌, ◌++◌, map, Bytes, length, get_elem?, replicate,
  append-nil, append_assoc, length-append, ==_refl, Bool, true, false, ltb, ◌==◌, ◌≡◌, ◌≢◌, refl,
  sym, ap, ◌∙◌, Option, none, some, Result, ok, ◌>>=◌, arith,
}
use gosh.Transport.Error.{TransportError, Zlib, uncompress}
use gosh.Transport.Fragment.{Fragment, marshal}
use gosh.Transport.Fragment.RoundTrip.{IsFragment, parse_fragment-marshal}
use gosh.Transport.Assembly.{Assembly, put, store, pin, gather, add, ingest, ingest_parsed}

-- The fragments `pre` have arrived, in order, and the final one is still to come.
abbrev pub gathering : ℕ → List Fragment → Assembly
gathering id pre = record {
  current_id = id;
  have_id = true;
  frags = map some pre;
  arrived = length pre;
  total = none;
}

-- An assembly that is ready for the fragment behind `pre`: the first one may come to any assembly
-- that is not busy with its id.
pub data IsReady (id : ℕ) : List Fragment → Assembly → Type 0 where
  idle : {a : Assembly} → a.have_id ≡ false → IsReady id [] a
  other : {a : Assembly} → a.current_id ≢ id → IsReady id [] a
  busy : (pre : List Fragment) → IsReady id pre (gathering id pre)

abbrev pub contents_of : List Fragment → Bytes
contents_of [] = []
contents_of (f ∷ fs) = f.contents ++ contents_of fs

length-some : (fs : List Fragment) → length (map {B = Option Fragment} some fs) ≡ length fs
length-some [] = refl
length-some (f ∷ fs) = ap suc (length-some fs)

put-grown :
    (pre : List Fragment) (f : Fragment)
    → put (length pre) f (map some pre ++ none ∷ []) ≡ map some (pre ++ f ∷ [])
unfolding put
put-grown [] f = refl
put-grown (g ∷ pre) f = ap (◌∷◌ (some g)) (put-grown pre f)

get-past :
    (pre : List Fragment) → get_elem? (map {B = Option Fragment} some pre) (length pre) ≡ none
get-past [] = refl
get-past (g ∷ pre) = get-past pre

gather-some : (fs : List Fragment) → gather (map some fs) ≡ some (contents_of fs)
unfolding gather
gather-some [] = refl
gather-some (f ∷ fs) = rw (gather-some fs) refl

pub contents_of-append :
    (pre : List Fragment) (f : Fragment)
    → contents_of (pre ++ f ∷ []) ≡ contents_of pre ++ f.contents
contents_of-append [] f = append-nil f.contents
contents_of-append (g ∷ pre) f =
    ap (λ b. g.contents ++ b) (contents_of-append pre f)
    ∙ sym (append_assoc g.contents (contents_of pre) f.contents)

put-next :
    (pre : List Fragment) (f : Fragment)
    → put (length pre) f (
        map some pre
        ++ replicate (length pre + 1 - length (map {B = Option Fragment} some pre)) none)
      ≡ map some (pre ++ f ∷ [])
put-next pre f =
    let one : length pre + 1 - length (map {B = Option Fragment} some pre) ≡ 1 =
      omega (arith, length-some pre) in
    ap (λ n. put (length pre) f (map some pre ++ replicate n none)) one ∙ put-grown pre f

store-next :
    (id : ℕ) (pre : List Fragment) (a : Assembly) (final : Bool) (b : Bytes)
    → IsReady id pre a
    → store a (record { id = id; num = length pre; final = final; contents = b })
      ≡ gathering id (pre ++ record { id = id; num = length pre; final = final; contents = b } ∷ [])
unfolding store put
store-next id _ a final b (idle e) = ground arith
store-next id _ a final b (other e) = ground arith
store-next id pre _ final b (busy _) =
    let f : Fragment = record { id = id; num = length pre; final = final; contents = b } in
    let same : (id == id) ≡ true = ==_refl id in
    let free : get_elem? (map {B = Option Fragment} some pre) (length pre) ≡ none = get-past pre in
    let size : length (pre ++ f ∷ []) ≡ length pre + 1 = length-append pre (f ∷ []) in
    rw (same, free, size)
      (λ i. record (gathering id pre) { frags = put-next pre f i; arrived = length pre + 1 })

add-next :
    (z : Zlib) (id : ℕ) (pre : List Fragment) (a : Assembly) (b : Bytes)
    → IsReady id pre a
    → add z a (record { id = id; num = length pre; final = false; contents = b }) ≡ (
      gathering id (pre ++ record { id = id; num = length pre; final = false; contents = b } ∷ []),
      ok none,
    )
unfolding add pin
add-next z id pre a b r = rw (store-next id pre a false b r) refl

-- The state once the final fragment has come.
abbrev pub delivered : ℕ → List Fragment → Assembly
delivered id fs = record (gathering id fs) { have_id = false; total = some (length fs) }

add-final :
    (z : Zlib) (id : ℕ) (pre : List Fragment) (a : Assembly) (b : Bytes)
    → IsReady id pre a
    → add z a (record { id = id; num = length pre; final = true; contents = b }) ≡ (
      delivered id (pre ++ record { id = id; num = length pre; final = true; contents = b } ∷ []),
      (uncompress z (contents_of pre ++ b) >>= λ out. ok (some out)),
    )
unfolding add pin
add-final z id pre a b r =
    let f : Fragment = record { id = id; num = length pre; final = true; contents = b } in
    let size : length pre + 1 ≡ length (pre ++ f ∷ []) = sym (length-append pre (f ∷ [])) in
    let none_behind : ltb (length (pre ++ f ∷ []))
          (length (map {B = Option Fragment} some (pre ++ f ∷ [])))
        ≡ false =
      ground (arith, length-some (pre ++ f ∷ [])) in
    rw
      (
        store-next id pre a true b r,
        size,
        none_behind,
        ==_refl (length (pre ++ f ∷ [])),
        gather-some (pre ++ f ∷ []),
        contents_of-append pre f,
      )
      refl

-- Datagrams taken one after the other, with the result of each.
unfoldable pub ingest_all :
    Zlib → Assembly → List Bytes → Assembly × List (Result TransportError (Option Bytes))
ingest_all z a [] = (a, [])
ingest_all z a (b ∷ bs) =
    let (a', r) = ingest z a b in let (a'', rs) = ingest_all z a' bs in (a'', r ∷ rs)

-- What is seen of `n` waiting fragments and the one that completes the instruction.
abbrev pub waiting :
    ℕ → Result TransportError (Option Bytes) → List (Result TransportError (Option Bytes))
waiting zero r = r ∷ []
waiting (suc n) r = ok none ∷ waiting n r

ingest-marshal :
    (z : Zlib) (a : Assembly) (f : Fragment) → IsFragment f → ingest z a (marshal f) ≡ add z a f
ingest-marshal z a f h = ap (ingest_parsed z a) (parse_fragment-marshal f h)

-- The fragments behind `pre`, and what they give when they arrive in order.
abbrev pub IsDelivered : Zlib → ℕ → Assembly → List Fragment → Bytes → Type 0
IsDelivered z id a fs payload =
    (n : ℕ) × (a' : Assembly) × (ingest_all z a (map marshal fs)
      ≡ (a', waiting n (uncompress z payload >>= λ out. ok (some out))))
    × (length fs ≡ n + 1)
    × (a'.have_id ≡ false)

pub ingest_all-next :
    (z : Zlib) (id : ℕ) (pre : List Fragment) (a : Assembly) (b : Bytes) (bs : List Bytes)
    {a' : Assembly} {rs : List (Result TransportError (Option Bytes))}
    → IsU64 id
    → length pre < 32768
    → IsReady id pre a
    → ingest_all z
        (gathering id
          (pre ++ record { id = id; num = length pre; final = false; contents = b } ∷ []))
        bs
      ≡ (a', rs)
    → ingest_all z a
        (marshal (record { id = id; num = length pre; final = false; contents = b }) ∷ bs)
      ≡ (a', ok none ∷ rs)
unfolding ingest_all
ingest_all-next z id pre a b bs u n r e =
    let f : Fragment = record { id = id; num = length pre; final = false; contents = b } in
    rw (ingest-marshal z a f (record { id_fits = u; num_fits = n }), add-next z id pre a b r, e)
      refl

pub ingest_all-final :
    (z : Zlib) (id : ℕ) (pre : List Fragment) (a : Assembly) (b : Bytes)
    → IsU64 id
    → length pre < 32768
    → IsReady id pre a
    → ingest_all z a
        (marshal (record { id = id; num = length pre; final = true; contents = b }) ∷ [])
      ≡ (
        delivered id (pre ++ record { id = id; num = length pre; final = true; contents = b } ∷ []),
        (uncompress z (contents_of pre ++ b) >>= λ out. ok (some out)) ∷ [],
      )
unfolding ingest_all
ingest_all-final z id pre a b u n r =
    let f : Fragment = record { id = id; num = length pre; final = true; contents = b } in
    rw (ingest-marshal z a f (record { id_fits = u; num_fits = n }), add-final z id pre a b r) refl
