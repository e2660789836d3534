-- ===== src/Statesync/Diff.antt =====
-- internal/statesync/userstream.go: what a diff of two streams says.
use gosh.Base.{
  subst, ℕ, ◌+◌, ◌≤◌, ◌<◌, List, [], ◌∷◌, ◌++◌, map, append-nil, append_assoc, Bytes, length, All,
  All-append, length-append, drop-append_length, true, false, leb, if◌then◌else◌, ◌≡◌, refl, sym,
  ap, ◌∙◌, ok, arith,
}
use gosh.Base.Int.{ℤ, IsInt64}
use gosh.Wire.Messages.{
  UserEvent, keys_event, resize_event, marshal_user_message, unmarshal_user_message,
}
use gosh.Wire.Messages.RoundTrip.{IsEvent, unmarshal_user_message-marshal_user_message}
use gosh.Statesync.UserStream.{absorb, coalesce, diff_from}

-- The events that a stream is built from: one key each, or a resize.
pub data IsUnit : UserEvent → Type 0 where
  key : (c : ℕ) → IsUnit (keys_event (c ∷ []))
  sized : (w h : ℤ) → IsInt64 w → IsInt64 h → IsUnit (resize_event w h)

-- An event that joins at most `n` keys.
data IsShort (n : ℕ) : UserEvent → Type 0 where
  keys : (b : Bytes) → length b ≤ n → IsShort n (keys_event b)
  sized : (w h : ℤ) → IsInt64 w → IsInt64 h → IsShort n (resize_event w h)

-- The events of one key each that an event joins.
unfoldable pub expand_event : UserEvent → List UserEvent
expand_event ev = if ev.resize then ev ∷ [] else map (λ c. keys_event (c ∷ [])) ev.keys

unfoldable pub expand : List UserEvent → List UserEvent
unfolding expand_event
expand [] = []
expand (ev ∷ evs) = expand_event ev ++ expand evs

map-append :
    (a b : Bytes)
    → map (λ c. keys_event (c ∷ [])) (a ++ b)
      ≡ map (λ c. keys_event (c ∷ [])) a ++ map (λ c. keys_event (c ∷ [])) b
map-append [] b = refl
map-append (c ∷ a) b = ap (◌∷◌ (keys_event (c ∷ []))) (map-append a b)

expand-append : (a b : List UserEvent) → expand (a ++ b) ≡ expand a ++ expand b
unfolding expand
expand-append [] b = refl
expand-append (x ∷ a) b =
    ap (λ r. expand_event x ++ r) (expand-append a b)
    ∙ sym (append_assoc (expand_event x) (expand a) (expand b))

expand-absorb :
    (n : ℕ) (acc : List UserEvent) (c : ℕ)
    → All (IsShort n) acc
    → expand (absorb acc (keys_event (c ∷ []))) ≡ expand acc ++ keys_event (c ∷ []) ∷ []
unfolding expand absorb
expand-absorb n [] c h = refl
expand-absorb n (_ ∷ []) c (keys b s, h) =
    append-nil _
    ∙ map-append b (c ∷ [])
    ∙ ap (λ r. r ++ keys_event (c ∷ []) ∷ []) (sym (append-nil (map (λ c. keys_event (c ∷ [])) b)))
expand-absorb n (_ ∷ []) c (sized w h hw hh, _) = refl
expand-absorb n (x ∷ y ∷ acc) c (_, h) =
    ap (λ r. expand_event x ++ r) (expand-absorb n (y ∷ acc) c h)
    ∙ sym (append_assoc (expand_event x) (expand (y ∷ acc)) (keys_event (c ∷ []) ∷ []))

IsShort-suc : {n : ℕ} {ev : UserEvent} → IsShort n ev → IsShort (n + 1) ev
IsShort-suc (keys b s) = keys b (omega arith)
IsShort-suc (sized w h hw hh) = sized w h hw hh

All-IsShort-suc : (n : ℕ) (acc : List UserEvent) → All (IsShort n) acc → All (IsShort (n + 1)) acc
All-IsShort-suc n [] h = tt
All-IsShort-suc n (x ∷ acc) (s, h) = (IsShort-suc s, All-IsShort-suc n acc h)

absorb-IsShort :
    (n : ℕ) (acc : List UserEvent) (c : ℕ)
    → All (IsShort n) acc
    → All (IsShort (n + 1)) (absorb acc (keys_event (c ∷ [])))
unfolding absorb
absorb-IsShort n [] c h = (keys (c ∷ []) (omega arith), tt)
absorb-IsShort n (_ ∷ []) c (keys b s, h) =
    (keys (b ++ c ∷ []) (omega (arith, length-append b (c ∷ []))), tt)
absorb-IsShort n (_ ∷ []) c (sized w h hw hh, _) =
    (sized w h hw hh, (keys (c ∷ []) (omega arith), tt))
absorb-IsShort n (x ∷ y ∷ acc) c (s, h) = (IsShort-suc s, absorb-IsShort n (y ∷ acc) c h)

coalesce-IsShort :
    (n : ℕ) (acc evs : List UserEvent)
    → All (IsShort n) acc
    → All IsUnit evs
    → All (IsShort (n + length evs)) (coalesce acc evs)
unfolding coalesce
coalesce-IsShort n acc [] h u = subst (λ m. All (IsShort m) acc) (omega arith) h
coalesce-IsShort n acc (ev ∷ evs) h (key c, u) =
    subst (λ m. All (IsShort m) (coalesce (absorb acc ev) evs)) (omega arith)
      (coalesce-IsShort (n + 1) (absorb acc ev) evs (absorb-IsShort n acc c h) u)
coalesce-IsShort n acc (ev ∷ evs) h (sized w k hw hk, u) =
    subst (λ m. All (IsShort m) (coalesce (acc ++ ev ∷ []) evs)) (omega arith)
      (coalesce-IsShort (n + 1) (acc ++ ev ∷ []) evs
        (All-append (IsShort (n + 1)) acc (ev ∷ []) (All-IsShort-suc n acc h) (sized w k hw hk, tt))
        u)

expand-coalesce :
    (n : ℕ) (acc evs : List UserEvent)
    → All (IsShort n) acc
    → All IsUnit evs
    → expand (coalesce acc evs) ≡ expand acc ++ evs
unfolding coalesce expand
expand-coalesce n acc [] h u = sym (append-nil (expand acc))
expand-coalesce n acc (ev ∷ evs) h (key c, u) =
    expand-coalesce (n + 1) (absorb acc ev) evs (absorb-IsShort n acc c h) u
    ∙ ap (λ r. r ++ evs) (expand-absorb n acc c h)
    ∙ append_assoc (expand acc) (ev ∷ []) evs
expand-coalesce n acc (ev ∷ evs) h (sized w k hw hk, u) =
    expand-coalesce (n + 1) (acc ++ ev ∷ []) evs
      (All-append (IsShort (n + 1)) acc (ev ∷ []) (All-IsShort-suc n acc h) (sized w k hw hk, tt)) u
    ∙ ap (λ r. r ++ evs) (expand-append acc (ev ∷ []))
    ∙ append_assoc (expand acc) (ev ∷ []) evs

All-IsEvent :
    (n : ℕ) (evs : List UserEvent) → n < 4294967296 → All (IsShort n) evs → All IsEvent evs
All-IsEvent n [] s h = tt
All-IsEvent n (_ ∷ evs) s (keys b t, h) = (IsEvent.keys b (omega arith), All-IsEvent n evs s h)
All-IsEvent n (_ ∷ evs) s (sized w k hw hk, h) = (IsEvent.resized w k hw hk, All-IsEvent n evs s h)

unmarshal_user_message-empty : unmarshal_user_message [] ≡ ok []
unfolding marshal_user_message
unmarshal_user_message-empty = unmarshal_user_message-marshal_user_message [] tt

-- The diff of a stream from one that it extends by fewer than 2 ^ 32 events, each a key or a resize to
-- 64-bit sizes: a peer that decodes it and takes its runs of keys apart has the missing events, in
-- order.
pub diff_from-append :
    (existing suffix : List UserEvent)
    → All IsUnit suffix
    → length suffix < 4294967296
    → (evs : List UserEvent) × (unmarshal_user_message
          (diff_from (record { events = existing ++ suffix }) (record { events = existing }))
        ≡ ok evs)
      × (expand evs ≡ suffix)
unfolding diff_from expand
diff_from-append existing [] u s =
    let same : leb (length (existing ++ [])) (length existing) ≡ true =
      ground (arith, length-append {A = UserEvent} existing []) in
    ([], rw same unmarshal_user_message-empty, refl)
diff_from-append existing (ev ∷ suffix) u s =
    let longer : leb (length (existing ++ ev ∷ suffix)) (length existing) ≡ false =
      ground (arith, length-append existing (ev ∷ suffix)) in
    let short : All (IsShort (0 + length (ev ∷ suffix))) (coalesce [] (ev ∷ suffix)) =
      coalesce-IsShort 0 [] (ev ∷ suffix) tt u in
    (
      coalesce [] (ev ∷ suffix),
      rw (longer, drop-append_length existing (ev ∷ suffix))
          (unmarshal_user_message-marshal_user_message (coalesce [] (ev ∷ suffix))
            (All-IsEvent (0 + length (ev ∷ suffix)) _ (omega arith) short)),
      expand-coalesce 0 [] (ev ∷ suffix) tt u,
    )
