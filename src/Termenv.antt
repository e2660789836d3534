-- ===== src/Termenv.antt =====
-- internal/termenv: `MakeRaw`, `Restore`, `Size`, `TrySize` and `enableVT`. The calls of x/term and
-- x/sys/windows are a `System`, which says which of them succeed; a mode is a number. What a call
-- changes is the `Terminal`.
pub mod Restored
mod Tests
use gosh.Base.{
  ℕ, ◌-◌, ◌<◌, bit_and, bit_or, Bool, true, false, ◌||◌, ltb, if◌then◌else◌, Option, none, some,
  Result, ok, err,
}
use gosh.Base.Int.{ℤ, pos, negsuc}

-- The mode of the input, and that of the console's output on Windows.
pub record Terminal : Type 0 where
  pub input : ℕ
  pub output : ℕ

-- The build, and the answers of the system: the raw mode that a mode is changed to, where that
-- succeeds; whether modes are set; whether there is a console; and the size.
pub data Platform : Type 0 where
  unix : Platform
  windows : Platform

pub record System : Type 0 where
  pub platform : Platform
  pub raw : ℕ → Option ℕ
  pub restores : Bool
  pub is_console : Bool
  pub sets : ℕ → Bool
  pub size : Option (ℤ × ℤ)

abbrev pub enable_virtual_terminal_processing : ℕ
enable_virtual_terminal_processing = 4

abbrev pub disable_newline_auto_return : ℕ
disable_newline_auto_return = 8

pub data TermError : Type 0 where
  no_vt : TermError
  no_raw : TermError
  not_restored : TermError

-- The restore token: the old mode of the input, and that of the output where it was changed.
pub record State : Type 0 where
  pub state : Option ℕ
  pub restore_vt : Option ℕ

-- `SetConsoleMode`
abbrev pub set_console_mode : System → Terminal → ℕ → Terminal × Bool
set_console_mode sys t mode =
    if sys.sets mode then (record t { output = mode }, true) else (t, false)

-- `x &^ y` on a DWORD.
abbrev pub and_not : ℕ → ℕ → ℕ
and_not x y = bit_and x (4294967295 - y)

abbrev second_try : System → ℕ → Terminal × Bool → Terminal × Result TermError (Option ℕ)
second_try sys orig (t, true) = (t, ok (some orig))
second_try sys orig (t, false) = (t, err no_vt)

abbrev first_try : System → ℕ → ℕ → Terminal × Bool → Terminal × Result TermError (Option ℕ)
first_try sys orig mode (t, true) = (t, ok (some orig))
first_try sys orig mode (t, false) =
    second_try sys orig (set_console_mode sys t (and_not mode disable_newline_auto_return))

abbrev pub vt_mode : ℕ → ℕ
vt_mode orig = bit_or (bit_or orig enable_virtual_terminal_processing) disable_newline_auto_return

abbrev enable_vt_windows : System → Terminal → Terminal × Result TermError (Option ℕ)
enable_vt_windows sys t =
    if sys.is_console
    then first_try sys t.output (vt_mode t.output) (set_console_mode sys t (vt_mode t.output))
    else (t, ok none)

-- The mode to restore, where the output's was changed.
abbrev enable_vt_on : Platform → System → Terminal → Terminal × Result TermError (Option ℕ)
enable_vt_on unix sys t = (t, ok none)
enable_vt_on windows sys t = enable_vt_windows sys t

unfoldable pub enable_vt : System → Terminal → Terminal × Result TermError (Option ℕ)
enable_vt sys t = enable_vt_on sys.platform sys t

-- The call of `restoreVT`, whose failure is not looked at.
unfoldable pub restore_vt : System → Terminal → Option ℕ → Terminal
restore_vt sys t none = t
restore_vt sys t (some orig) = (set_console_mode sys t orig).0

abbrev with_raw : System → Terminal → Option ℕ → Option ℕ → Terminal × Result TermError State
with_raw sys t vt none = (restore_vt sys t vt, err no_raw)
with_raw sys t vt (some mode) =
    (record t { input = mode }, ok (record { state = some t.input; restore_vt = vt }))

abbrev with_vt : System → Terminal × Result TermError (Option ℕ) → Terminal × Result TermError State
with_vt sys (t, err e) = (t, err e)
with_vt sys (t, ok vt) = with_raw sys t vt (sys.raw t.input)

unfoldable pub make_raw : System → Terminal → Terminal × Result TermError State
unfolding enable_vt restore_vt
make_raw sys t = with_vt sys (enable_vt sys t)

abbrev restore_input : System → Terminal → Option ℕ → Terminal × Option TermError
restore_input sys t none = (t, none)
restore_input sys t (some mode) =
    if sys.restores then (record t { input = mode }, none) else (t, some not_restored)

-- `none` is the nil token.
unfoldable pub restore : System → Terminal → Option State → Terminal × Option TermError
unfolding restore_vt
restore sys t none = (t, none)
restore sys t (some s) =
    let (t', e) = restore_input sys t s.state in (restore_vt sys t' s.restore_vt, e)

abbrev pub at_most_zero : ℤ → Bool
at_most_zero (pos n) = ltb n 1
at_most_zero (negsuc n) = true

abbrev pub sized {ℓ} : {A : Type ℓ} → A → (ℤ × ℤ → A) → Option (ℤ × ℤ) → A
sized fallback f none = fallback
sized fallback f (some (w, h)) = if at_most_zero w || at_most_zero h then fallback else f (w, h)

unfoldable pub size : System → ℤ × ℤ
size sys = sized (pos 80, pos 24) (λ s. s) sys.size

unfoldable pub try_size : System → Option (ℤ × ℤ)
try_size sys = sized none some sys.size
