-- ===== src/Cmd/Attach.antt =====
-- cmd/gosh/root.go: `runClient`, as the trace of what it does to the terminal, with the calls deferred
-- by the code at the end.
pub mod Modes
use gosh.Base.{List, [], ◌∷◌, ◌++◌, Bool, true, false, not, ◌&&◌, if◌then◌else◌, ◌≡◌, refl}

pub data Effect : Type 0 where
  made_raw : Effect
  restored : Effect
  said_exit : Effect

-- How the session ends: `client.New` fails, or `Run` returns no error, the cancellation or another.
pub data Outcome : Type 0 where
  not_started : Outcome
  finished : Outcome
  cancelled : Outcome
  failed : Outcome

pub record Console : Type 0 where
  pub stdin_terminal : Bool
  pub stdout_terminal : Bool
  pub goes_raw : Bool
  pub outcome : Outcome

abbrev pub interactive : Console → Bool
interactive c = c.stdin_terminal && c.stdout_terminal

abbrev pub restore : Bool → List Effect
restore true = restored ∷ []
restore false = []

abbrev exit_of : Outcome → List Effect
exit_of not_started = []
exit_of finished = said_exit ∷ []
exit_of cancelled = said_exit ∷ []
exit_of failed = []

-- The session between raw mode and the deferred call.
abbrev session : Bool → Outcome → List Effect
session raw not_started = []
session raw finished = restore raw ++ exit_of finished
session raw cancelled = restore raw ++ exit_of cancelled
session raw failed = restore raw ++ exit_of failed

unfoldable pub run_client : Console → List Effect
run_client c =
    if interactive c
    then (if not c.goes_raw then [] else made_raw ∷ (session true c.outcome ++ restore true))
    else session false c.outcome

-- The mode that a trace leaves the terminal in, and whether it says that it is leaving in raw mode.
unfoldable pub ends_raw : Bool → List Effect → Bool
ends_raw raw [] = raw
ends_raw raw (made_raw ∷ es) = ends_raw true es
ends_raw raw (restored ∷ es) = ends_raw false es
ends_raw raw (said_exit ∷ es) = ends_raw raw es

unfoldable pub says_raw : Bool → List Effect → Bool
says_raw raw [] = false
says_raw raw (made_raw ∷ es) = says_raw true es
says_raw raw (restored ∷ es) = says_raw false es
says_raw raw (said_exit ∷ es) = if raw then true else says_raw raw es

leaves_cooked :
    (i raw : Bool) (o : Outcome)
    → let trace =
        (if i
          then (if not raw then [] else made_raw ∷ (session true o ++ restore true))
          else session false o) in
      (ends_raw false trace ≡ false) × (says_raw false trace ≡ false)
unfolding ends_raw says_raw
leaves_cooked true false o = (refl, refl)
leaves_cooked true true not_started = (refl, refl)
leaves_cooked true true finished = (refl, refl)
leaves_cooked true true cancelled = (refl, refl)
leaves_cooked true true failed = (refl, refl)
leaves_cooked false raw not_started = (refl, refl)
leaves_cooked false raw finished = (refl, refl)
leaves_cooked false raw cancelled = (refl, refl)
leaves_cooked false raw failed = (refl, refl)

-- However a session ends, the terminal is not left in raw mode, and the word of leaving is not
-- written while it is.
pub run_client-restores :
    (c : Console)
    → (ends_raw false (run_client c) ≡ false) × (says_raw false (run_client c) ≡ false)
unfolding run_client
run_client-restores c = leaves_cooked (interactive c) c.goes_raw c.outcome
