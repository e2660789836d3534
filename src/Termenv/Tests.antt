-- ===== src/Termenv/Tests.antt =====
-- Runs of internal/termenv.
use gosh.Base.{some, none, true, ◌==◌, not, ◌≡◌, refl}
use gosh.Termenv.{Terminal, System, windows, make_raw}

-- A console of an older build, which refuses the flag 8.
abbrev console : System
console = record {
  platform = windows;
  raw = λ mode. some 0;
  restores = true;
  is_console = true;
  sets = λ mode. not (mode == 15);
  size = none;
}

abbrev terminal : Terminal
terminal = record { input = 7; output = 3 }

test_retry : (make_raw console terminal).0 ≡ record { input = 0; output = 7 }
unfolding make_raw
test_retry = refl
