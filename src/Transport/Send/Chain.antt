-- ===== src/Transport/Send/Chain.antt =====
-- internal/transport/sender.go: the sent states of a `sender` are a chain of prefixes of its current
-- state.
use gosh.Base.{ℕ, zero, suc, List, [], ◌∷◌, ◌++◌, map, take, drop, ◌≡◌, All}
use gosh.Base.Prefixes.{IsPrefix, IsPrefix-nil, IsPrefix-refl, IsPrefix-append, IsPrefix-drop}
use gosh.Wire.Messages.{UserEvent}
use gosh.Transport.Sender.{Sender, TimestampedState, state_at}
use gosh.Transport.Send.{touch_back}

-- An earlier state begins a later one.
abbrev pub Begins : TimestampedState → TimestampedState → Type 0
Begins x y = IsPrefix x.state.events y.state.events

-- Each state begins the current one and all that stand behind it.
abbrev pub IsChain : List TimestampedState → List UserEvent → Type 0
IsChain [] now = Unit {0}
IsChain (x ∷ xs) now = IsPrefix x.state.events now × All (Begins x) xs × IsChain xs now

abbrev pub IsChained : Sender → Type 0
IsChained s = IsChain s.sent_states s.current_state.events

-- A sender with the same states.
abbrev pub IsAlike : Sender → Sender → Type 0
IsAlike s s' = (s'.sent_states ≡ s.sent_states) × (s'.current_state ≡ s.current_state)

pub IsChained-alike : (s s' : Sender) → IsAlike s s' → IsChained s → IsChained s'
IsChained-alike s s' (e, f) h = rw (e, f) h

-- A state of the chain, whatever its index: out of range it is the initial one.
pub state_at-IsPrefix :
    (xs : List TimestampedState) (now : List UserEvent) (i : ℕ)
    → IsChain xs now
    → IsPrefix (state_at xs i).state.events now
unfolding state_at
state_at-IsPrefix [] now i h = IsPrefix-nil now
state_at-IsPrefix (x ∷ xs) now zero h = h.0
state_at-IsPrefix (x ∷ xs) now (suc i) h = state_at-IsPrefix xs now i h.2

pub IsChain-extend :
    (xs : List TimestampedState) (now more : List UserEvent)
    → IsChain xs now
    → IsChain xs (now ++ more)
IsChain-extend [] now more h = tt
IsChain-extend (x ∷ xs) now more (p, b, h) =
    (IsPrefix-append x.state.events now more p, b, IsChain-extend xs now more h)

module _ (n : ℕ) (cut : TimestampedState → TimestampedState)
    (cuts : (x : TimestampedState) → (cut x).state.events ≡ drop n x.state.events) where
  All-Begins-cut :
      (x : TimestampedState) (xs : List TimestampedState)
      → All (Begins x) xs
      → All (Begins (cut x)) (map cut xs)
  All-Begins-cut x [] h = tt
  All-Begins-cut x (y ∷ xs) (p, h) =
      (rw (cuts x, cuts y) (IsPrefix-drop n x.state.events y.state.events p), All-Begins-cut x xs h)

  pub IsChain-cut :
      (xs : List TimestampedState) (now : List UserEvent)
      → IsChain xs now
      → IsChain (map cut xs) (drop n now)
  IsChain-cut [] now h = tt
  IsChain-cut (x ∷ xs) now (p, b, h) = (
    rw (cuts x) (IsPrefix-drop n x.state.events now p),
    All-Begins-cut x xs b,
    IsChain-cut xs now h,
  )

pub All-snoc :
    (P : TimestampedState → Type 0) (xs : List TimestampedState) (y : TimestampedState)
    → All P xs
    → P y
    → All P (xs ++ y ∷ [])
All-snoc P [] y h p = (p, tt)
All-snoc P (x ∷ xs) y (q, h) p = (q, All-snoc P xs y h p)

-- The current state is sent.
pub IsChain-snoc :
    (xs : List TimestampedState) (now : List UserEvent) (y : TimestampedState)
    → y.state.events ≡ now
    → IsChain xs now
    → IsChain (xs ++ y ∷ []) now
IsChain-snoc [] now y e h = (rw e (IsPrefix-refl now), tt, tt)
IsChain-snoc (x ∷ xs) now y e (p, b, h) =
    (p, All-snoc (Begins x) xs y b (rw e p), IsChain-snoc xs now y e h)

pub All-erase :
    (P : TimestampedState → Type 0) (k : ℕ) (xs : List TimestampedState)
    → All P xs
    → All P (take k xs ++ drop (suc k) xs)
All-erase P zero [] h = tt
All-erase P zero (x ∷ xs) (p, h) = h
All-erase P (suc k) [] h = tt
All-erase P (suc k) (x ∷ xs) (p, h) = (p, All-erase P k xs h)

pub IsChain-erase :
    (k : ℕ) (xs : List TimestampedState) (now : List UserEvent)
    → IsChain xs now
    → IsChain (take k xs ++ drop (suc k) xs) now
IsChain-erase zero [] now h = tt
IsChain-erase zero (x ∷ xs) now h = h.2
IsChain-erase (suc k) [] now h = tt
IsChain-erase (suc k) (x ∷ xs) now (p, b, h) =
    (p, All-erase (Begins x) k xs b, IsChain-erase k xs now h)

All-touch_back :
    (P : TimestampedState → Type 0)
    → ((y : TimestampedState) (now : ℕ) → P y → P (record y { sent_at = now }))
    → (xs : List TimestampedState) (now : ℕ) → All P xs
    → All P (touch_back xs now)
unfolding touch_back
All-touch_back P f [] now h = tt
All-touch_back P f (x ∷ []) now (p, h) = (f x now p, tt)
All-touch_back P f (x ∷ y ∷ xs) now (p, h) = (p, All-touch_back P f (y ∷ xs) now h)

pub IsChain-touch_back :
    (xs : List TimestampedState) (t : ℕ) (now : List UserEvent)
    → IsChain xs now
    → IsChain (touch_back xs t) now
unfolding touch_back
IsChain-touch_back [] t now h = tt
IsChain-touch_back (x ∷ []) t now h = h
IsChain-touch_back (x ∷ y ∷ xs) t now (p, b, h) =
    (p, All-touch_back (Begins x) (λ z u q. q) (y ∷ xs) t b, IsChain-touch_back (y ∷ xs) t now h)
