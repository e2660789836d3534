-- ===== src/Transport/Assembly.antt =====
-- internal/transport/fragment.go: `assembly` and its `add`. A nil fragment is `none`, and so is a
-- total of -1.
pub mod InOrder
use gosh.Base.{
  ℕ, zero, suc, ◌+◌, ◌-◌, List, [], ◌∷◌, ◌++◌, Bytes, length, take, get_elem?, replicate, Bool,
  true, false, not, ◌&&◌, ◌||◌, ltb, ◌==◌, if◌then◌else◌, Option, none, some, Result, ok, err,
  ◌>>=◌,
}
use gosh.Transport.Error.{TransportError, Zlib, uncompress}
use gosh.Transport.Fragment.{Fragment, parse_fragment}
use mathlib.Core.Option

pub record Assembly : Type 0 where
  pub current_id : ℕ
  pub have_id : Bool
  pub frags : List (Option Fragment)
  pub arrived : ℕ
  pub total : Option ℕ

abbrev pub new_assembly : Assembly
new_assembly = record { current_id = 0; have_id = false; frags = []; arrived = 0; total = none }

-- `frags[n] = &f`
unfoldable pub put : ℕ → Fragment → List (Option Fragment) → List (Option Fragment)
put n f [] = []
put zero f (x ∷ xs) = some f ∷ xs
put (suc n) f (x ∷ xs) = x ∷ put n f xs

abbrev pub is_held : Option (Option Fragment) → Bool
is_held (some (some f)) = true
is_held (some none) = false
is_held none = false

-- The slice grown with nils until it has the index `n`.
abbrev pub grown : List (Option Fragment) → ℕ → List (Option Fragment)
grown frags n = frags ++ replicate (n + 1 - length frags) none

-- A new id starts over; a known one fills a free slot.
unfoldable pub store : Assembly → Fragment → Assembly
unfolding put
store a f =
    if not a.have_id || not (a.current_id == f.id)
    then record {
      current_id = f.id;
      have_id = true;
      frags = put f.num f (replicate (f.num + 1) none);
      arrived = 1;
      total = none;
    }
    else if is_held (get_elem? a.frags f.num)
    then a
    else record a { frags = put f.num f (grown a.frags f.num); arrived = a.arrived + 1 }

unfoldable pub count_held : List (Option Fragment) → ℕ
count_held [] = 0
count_held (none ∷ fs) = count_held fs
count_held (some f ∷ fs) = suc (count_held fs)

-- The final fragment pins the total; slots behind it are dropped.
unfoldable pub pin : Assembly → Fragment → Assembly
unfolding count_held
pin a f =
    if f.final
    then (if ltb (f.num + 1) (length a.frags)
        then record a {
          total = some (f.num + 1);
          frags = take (f.num + 1) a.frags;
          arrived = count_held (take (f.num + 1) a.frags);
        }
        else record a { total = some (f.num + 1) })
    else a

-- The contents in order, or `none` where a slot is empty.
unfoldable pub gather : List (Option Fragment) → Option Bytes
gather [] = some []
gather (none ∷ fs) = none
gather (some f ∷ fs) = Option.map (λ b. f.contents ++ b) (gather fs)

abbrev pub is_complete : Assembly → Option ℕ → Bool
is_complete a none = false
is_complete a (some n) = a.arrived == n

abbrev pub handed : Zlib → Assembly → Option Bytes → Assembly × Result TransportError (Option Bytes)
handed z a none = (a, ok none)
handed z a (some b) = (record a { have_id = false }, (uncompress z b >>= λ out. ok (some out)))

abbrev pub complete : Zlib → Assembly → Assembly × Result TransportError (Option Bytes)
complete z a = if is_complete a a.total then handed z a (gather a.frags) else (a, ok none)

-- `ok none` is the source's `nil, nil`: the instruction is not complete.
unfoldable pub add : Zlib → Assembly → Fragment → Assembly × Result TransportError (Option Bytes)
unfolding store pin gather
add z a f = complete z (pin (store a f) f)

abbrev pub ingest_parsed :
    Zlib
    → Assembly
    → Result TransportError Fragment
    → Assembly × Result TransportError (Option Bytes)
ingest_parsed z a (err e) = (a, err e)
ingest_parsed z a (ok f) = add z a f

-- The first two steps of `Transport.Recv` in internal/transport/transport.go, on a datagram.
abbrev pub ingest : Zlib → Assembly → Bytes → Assembly × Result TransportError (Option Bytes)
ingest z a b = ingest_parsed z a (parse_fragment b)
