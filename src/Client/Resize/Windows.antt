-- ===== src/Client/Resize/Windows.antt =====
-- internal/client/resize_windows.go: what the poller sees, and what it misses.
use gosh.Base.{ℕ, zero, suc, true, false, ◌≡◌, refl, ==_refl, Bool-cases, inl, inr, arith, ap}
use gosh.Base.Int.{ℤ, pos, negsuc}
use gosh.Statesync.UserStream.{int_equal}
use gosh.Statesync.Equal.{int_equal-eq}
use gosh.Client.Resize.{Size, Poller, differs, poll, push_polled}

int_equal_refl : (z : ℤ) → int_equal z z ≡ true
int_equal_refl (pos n) = ==_refl n
int_equal_refl (negsuc n) = ==_refl n

differs_self : (s : Size) → differs s s ≡ false
differs_self (w, h) = rw (int_equal_refl w, int_equal_refl h) refl

differs-ne : (s t : Size) → differs s t ≡ false → s ≡ t
differs-ne (w, h) (v, g) e =
    let same_w : w ≡ v = int_equal-eq w v (ground arith) in
    let same_h : h ≡ g = int_equal-eq h g (ground arith) in cc

-- Polls of a window that nobody resizes.
pub polls : ℕ → Poller → Poller
polls zero p = p
polls (suc n) p = polls n (poll p true)

polls_still : (n : ℕ) (p : Poller) → differs p.window p.last ≡ false → polls n p ≡ p
unfolding polls poll
polls_still zero p e = refl
polls_still (suc n) p e = rw e (polls_still n p e)

-- A tick that finds a new size puts it right where the window keeps that size until the token is read.
pub poll-push_polled :
    (p : Poller) → p.pushed ≡ p.last → (push_polled (poll p true)).pushed ≡ p.window
unfolding poll push_polled
poll-push_polled p e = elim (Bool-cases (differs p.window p.last)) [
  | inl new ↦ rw new refl
  | inr old ↦ ground (arith, differs-ne p.window p.last old)
]

-- A window at one size `b` that a tick has seen, whose token is read once the window has gone to
-- another size `c`, and that is back at `b` before the next tick: the size pushed is `c`, and no
-- number of further ticks puts a token out.
pub polls-misses :
    (p : Poller) (c : Size) (n : ℕ)
    → differs p.window p.last ≡ true
    → let seen = poll p true in
      let read = push_polled (record seen { window = c }) in
      let settled = polls n (record read { window = p.window }) in
      (settled.window ≡ p.window) × (settled.pushed ≡ c) × (settled.out ≡ false)
unfolding poll push_polled
polls-misses p c n e =
    let rest : Poller = record { window = p.window; pushed = c; last = p.window; out = false } in
    let still : polls n rest ≡ rest = polls_still n rest (differs_self p.window) in
    simp e (ap (λ r. r.window) still, ap (λ r. r.pushed) still, ap (λ r. r.out) still)
