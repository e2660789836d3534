-- ===== src/Statesync/Equal.antt =====
-- internal/statesync/userstream.go: streams that `Equal` takes for equal are.
use gosh.Base.{List, [], ◌∷◌, Bool, true, false, ◌&&◌, equal_iff, ==_iff, ◌≡◌, refl, ap, arith}
use gosh.Base.Int.{ℤ, pos, negsuc}
use gosh.Wire.Messages.{UserEvent}
use gosh.Statesync.UserStream.{
  UserStream, int_equal, bool_equal, event_equal, events_equal, stream_equal,
}

pub int_equal-eq : (y z : ℤ) → int_equal y z ≡ true → y ≡ z
int_equal-eq (pos m) (pos n) e = ap pos ((==_iff m n).0 e)
int_equal-eq (negsuc m) (negsuc n) e = ap negsuc ((==_iff m n).0 e)
int_equal-eq (pos m) (negsuc n) e = absurd cc
int_equal-eq (negsuc m) (pos n) e = absurd cc

bool_equal-eq : (a b : Bool) → bool_equal a b ≡ true → a ≡ b
bool_equal-eq true true e = refl
bool_equal-eq false false e = refl
bool_equal-eq true false e = absurd cc
bool_equal-eq false true e = absurd cc

and_split : (a b : Bool) → (a && b) ≡ true → (a ≡ true) × (b ≡ true)
and_split true b e = (refl, e)
and_split false b e = absurd cc

event_equal-eq : (a b : UserEvent) → event_equal a b ≡ true → a ≡ b
unfolding event_equal
event_equal-eq a b e =
    let (r, e) = and_split (bool_equal a.resize b.resize) _ e in
    let (w, e) = and_split (int_equal a.width b.width) _ e in
    let (h, k) = and_split (int_equal a.height b.height) _ e in
    let resize = bool_equal-eq a.resize b.resize r in
    let width = int_equal-eq a.width b.width w in
    let height = int_equal-eq a.height b.height h in
    let keys = (equal_iff a.keys b.keys).0 k in ground (arith, resize, width, height, keys)

events_equal-eq : (us os : List UserEvent) → events_equal us os ≡ true → us ≡ os
unfolding events_equal
events_equal-eq [] [] e = refl
events_equal-eq (a ∷ us) (b ∷ os) e =
    let (x, rest) = and_split (event_equal a b) _ e in
    let first = event_equal-eq a b x in let others = events_equal-eq us os rest in cc
events_equal-eq [] (b ∷ os) e = absurd cc
events_equal-eq (a ∷ us) [] e = absurd cc

pub stream_equal-eq : (u o : UserStream) → stream_equal u o ≡ true → u.events ≡ o.events
unfolding stream_equal
stream_equal-eq u o e = events_equal-eq u.events o.events e
