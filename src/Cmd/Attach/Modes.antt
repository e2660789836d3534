-- ===== src/Cmd/Attach/Modes.antt =====
-- cmd/gosh/root.go: `runClient` on the terminal itself, through internal/termenv.
use gosh.Base.{
  List, [], ◌∷◌, ◌++◌, Bool, true, false, ◌&&◌, none, some, Result, ok, err, if◌then◌else◌, All,
  ◌≡◌, refl, ap, ◌∙◌,
}
use gosh.Termenv.{System, Terminal, State, TermError, make_raw}
use gosh.Termenv.Restored.{Undone, make_raw-Undone}
use gosh.Cmd.Attach.{
  Effect, made_raw, restored, said_exit, Outcome, not_started, finished, cancelled, failed, session,
}

-- The effects behind raw mode, with its token: the terminal that they leave, and the terminals at which
-- the word of leaving is written.
unfoldable pub play : System → State → Terminal → List Effect → Terminal × List Terminal
play sys s t [] = (t, [])
play sys s t (made_raw ∷ es) = play sys s (make_raw sys t).0 es
play sys s t (restored ∷ es) = play sys s (gosh.Termenv.restore sys t (some s)).0 es
play sys s t (said_exit ∷ es) = let (t', said) = play sys s t es in (t', t ∷ said)

abbrev in_raw_mode : System → Outcome → Terminal × Result TermError State → Terminal × List Terminal
in_raw_mode sys o (t, err e) = (t, [])
in_raw_mode sys o (t, ok s) = play sys s t (session true o ++ gosh.Cmd.Attach.restore true)

-- Without a terminal at both ends there is nothing to restore.
abbrev in_pipe : Terminal → Outcome → Terminal × List Terminal
in_pipe t finished = (t, t ∷ [])
in_pipe t cancelled = (t, t ∷ [])
in_pipe t _ = (t, [])

unfoldable pub run_client_on : System → Terminal → Bool → Bool → Outcome → Terminal × List Terminal
unfolding play
run_client_on sys t stdin_terminal stdout_terminal o =
    if stdin_terminal && stdout_terminal then in_raw_mode sys o (make_raw sys t) else in_pipe t o

-- What a run leaves where its token restores `t`.
abbrev Leaves : Terminal → Terminal × List Terminal → Type 0
Leaves t (t', said) = (t' ≡ t) × All (λ u. u ≡ t) said

module _ (sys : System) (t t' : Terminal) (s : State)
    (first : gosh.Termenv.restore sys t' (some s) ≡ (t, none))
    (again : gosh.Termenv.restore sys t (some s) ≡ (t, none)) where
  once : (gosh.Termenv.restore sys t' (some s)).0 ≡ t
  once = ap (λ r. r.0) first

  twice : (gosh.Termenv.restore sys (gosh.Termenv.restore sys t' (some s)).0 (some s)).0 ≡ t
  twice = ap (λ u. (gosh.Termenv.restore sys u (some s)).0) once ∙ ap (λ r. r.0) again

  played-Leaves :
      (o : Outcome) → Leaves t (play sys s t' (session true o ++ gosh.Cmd.Attach.restore true))
  unfolding play
  played-Leaves not_started = (once, tt)
  played-Leaves finished = (twice, (once, tt))
  played-Leaves cancelled = (twice, (once, tt))
  played-Leaves failed = (twice, tt)

in_raw_mode-Leaves :
    (sys : System) (t : Terminal) (o : Outcome) (r : Terminal × Result TermError State)
    → Undone sys t r
    → Leaves t (in_raw_mode sys o r)
in_raw_mode-Leaves sys t o (t', err e) u = (u, tt)
in_raw_mode-Leaves sys t o (t', ok s) (first, again) = played-Leaves sys t t' s first again o

in_pipe-Leaves : (t : Terminal) (o : Outcome) → Leaves t (in_pipe t o)
in_pipe-Leaves t not_started = (refl, tt)
in_pipe-Leaves t finished = (refl, (refl, tt))
in_pipe-Leaves t cancelled = (refl, (refl, tt))
in_pipe-Leaves t failed = (refl, tt)

-- Where the system takes back the modes that it had: however a session ends, and whether raw mode
-- succeeds, is refused or is not asked for, the terminal is left as it was found, its input and its
-- output, and the word of leaving is only written to a terminal that is as it was found.
pub run_client_on-Leaves :
    (sys : System) (t : Terminal) (stdin_terminal stdout_terminal : Bool) (o : Outcome)
    → sys.restores ≡ true
    → sys.sets t.output ≡ true
    → ((run_client_on sys t stdin_terminal stdout_terminal o).0 ≡ t)
      × All (λ u. u ≡ t) (run_client_on sys t stdin_terminal stdout_terminal o).1
unfolding run_client_on
run_client_on-Leaves sys t stdin_terminal stdout_terminal o takes kept =
    by_mode (stdin_terminal && stdout_terminal)
  where
    by_mode :
        (interactive : Bool)
        → Leaves t (if interactive then in_raw_mode sys o (make_raw sys t) else in_pipe t o)
    by_mode true = in_raw_mode-Leaves sys t o (make_raw sys t) (make_raw-Undone sys t takes kept)
    by_mode false = in_pipe-Leaves t o
