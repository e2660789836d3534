-- ===== src/Client/Resize/Unix.antt =====
-- internal/client/resize_unix.go: no change of the window is lost.
use gosh.Base.{true, false, ◌≡◌, ◌⊎◌, inl, inr, refl, arith}
use gosh.Client.Resize.{Size, Watch, winch, take_signal, pass_on, push_size}

pub data Step : Watch → Watch → Type 0 where
  changed : (w : Watch) (s : Size) → Step w (winch w s)
  signalled : (w : Watch) → Step w (take_signal w)
  passed_on : (w : Watch) → Step w (pass_on w)
  read : (w : Watch) → Step w (push_size w)

pub data Reach (v : Watch) : Watch → Type 0 where
  here : Reach v v
  next : {w u : Watch} → Reach v w → Step w u → Reach v u

-- What was pushed last is the window's size, or a token is on its way.
abbrev pub IsKnown : Watch → Type 0
IsKnown w = (w.pushed ≡ w.window) ⊎ ((w.sig ≡ true) ⊎ ((w.taken ≡ true) ⊎ (w.out ≡ true)))

-- Nothing is on its way.
abbrev pub IsQuiet : Watch → Type 0
IsQuiet w = (w.sig ≡ false) × (w.taken ≡ false) × (w.out ≡ false)

Step-IsKnown : {w u : Watch} → Step w u → IsKnown w → IsKnown u
unfolding winch take_signal pass_on push_size
Step-IsKnown (changed w s) h = inr (inl refl)
Step-IsKnown (signalled w) h = ground arith
Step-IsKnown (passed_on w) h = ground arith
Step-IsKnown (read w) h = ground arith

Reach-IsKnown : {v w : Watch} → IsKnown v → Reach v w → IsKnown w
Reach-IsKnown h here = h
Reach-IsKnown h (next r s) = Step-IsKnown s (Reach-IsKnown h r)

quiet : (w : Watch) → IsKnown w → IsQuiet w → w.pushed ≡ w.window
quiet w (inl e) q = e
quiet w (inr (inl e)) q = absurd cc
quiet w (inr (inr (inl e))) q = absurd cc
quiet w (inr (inr (inr e))) q = absurd cc

-- Where the size pushed at the start is the window's, and whatever happens in whatever order: once
-- no signal and no token is on its way, the size pushed last is the window's.
pub Reach-pushed : (v w : Watch) → v.pushed ≡ v.window → Reach v w → IsQuiet w → w.pushed ≡ w.window
Reach-pushed v w h r q = quiet w (Reach-IsKnown (inl h) r) q
