-- ===== src/Client/Resize.antt =====
-- internal/client/resize_unix.go and resize_windows.go: `WatchResize`, with the reader of its channel
-- in `Run`. Each channel holds one token at most; what the goroutines do is a relation, a step for each
-- thing that happens. A change of the size comes together with its SIGWINCH.
pub mod Unix
pub mod Windows
use gosh.Base.{Bool, true, false, ◌||◌, not, if◌then◌else◌, Option, none, some, ◌≡◌}
use gosh.Base.Int.{ℤ}
use gosh.Statesync.UserStream.{int_equal}

abbrev pub Size : Type 0
Size = ℤ × ℤ

-- The window, the size that `Run` pushed last, a signal in the channel `sig`, a signal that the goroutine has
-- taken and not passed on, and the token of the channel `out`.
pub record Watch : Type 0 where
  pub window : Size
  pub pushed : Size
  pub sig : Bool
  pub taken : Bool
  pub out : Bool

-- A full channel takes no second token.
unfoldable pub winch : Watch → Size → Watch
winch w s = record w { window = s; sig = true }

-- `case <-sig:`
unfoldable pub take_signal : Watch → Watch
take_signal w = if w.sig then record w { sig = false; taken = true } else w

-- `case out <- struct{}{}:` and its default.
unfoldable pub pass_on : Watch → Watch
pass_on w = if w.taken then record w { taken = false; out = true } else w

-- `case <-s.resized():` in `Run`
unfoldable pub push_size : Watch → Watch
push_size w = if w.out then record w { out = false; pushed = w.window } else w

-- The poller of Windows: the size that it saw last; a size that cannot be determined is `none`.
pub record Poller : Type 0 where
  pub window : Size
  pub pushed : Size
  pub last : Size
  pub out : Bool

abbrev pub differs : Size → Size → Bool
differs (w, h) (v, g) = not (int_equal w v) || not (int_equal h g)

abbrev polled : Poller → Option Size → Poller
polled p none = p
polled p (some s) = if differs s p.last then record p { last = s; out = true } else p

-- A tick, on what `TrySize` answers.
unfoldable pub poll : Poller → Bool → Poller
poll p known = polled p (if known then some p.window else none)

unfoldable pub push_polled : Poller → Poller
push_polled p = if p.out then record p { out = false; pushed = p.window } else p
