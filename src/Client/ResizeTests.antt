-- ===== src/Client/ResizeTests.antt =====
-- Runs of the watchers of a window's size.
use gosh.Base.{true, false, ◌≡◌, refl}
use gosh.Base.Int.{pos}
use gosh.Client.Resize.{
  Size, Watch, Poller, winch, take_signal, pass_on, push_size, poll, push_polled,
}
use gosh.Client.Resize.Unix.{here, next, changed, signalled, passed_on, read, Reach-pushed}
use gosh.Client.Resize.Windows.{polls, polls-misses}

abbrev small : Size
small = (pos 80, pos 24)

abbrev large : Size
large = (pos 120, pos 50)

abbrev watch : Watch
watch = record { window = small; pushed = small; sig = false; taken = false; out = false }

abbrev resized : Watch
resized = record { window = large; pushed = large; sig = false; taken = false; out = false }

Reach-pushed_example : resized.pushed ≡ resized.window
unfolding winch take_signal pass_on push_size
Reach-pushed_example =
    Reach-pushed watch resized refl
      (next (next (next (next here (changed watch large)) (signalled _)) (passed_on _)) (read _))
      (refl, refl, refl)

abbrev poller : Poller
poller = record { window = large; pushed = small; last = small; out = false }

polls-misses_example :
    let seen = poll poller true in
    let read = push_polled (record seen { window = small }) in
    let settled = polls 9 (record read { window = poller.window }) in
    (settled.window ≡ poller.window) × (settled.pushed ≡ small) × (settled.out ≡ false)
polls-misses_example = polls-misses poller small 9 refl
