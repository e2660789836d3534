-- ===== src/Cmd/Tests.antt =====
-- Runs of cmd/gosh.
use gosh.Base.{ℕ, [], ◌∷◌, ◌++◌, true, false, some, none, ◌≡◌, refl, arith}
use gosh.Base.Text.{codes}
use gosh.Cmd.Target.{Names, split_target}
use gosh.Cmd.Attach.{Console, made_raw, restored, said_exit, finished, run_client}

abbrev pub names : Names
names = record { user = []; username = []; current = some (codes "CORP\\me") }

test_bare : split_target names (codes "h") ≡ (codes "me", codes "h")
unfolding split_target gosh.Base.equal
test_bare = refl

abbrev console : Console
console = record {
  stdin_terminal = true;
  stdout_terminal = true;
  goes_raw = true;
  outcome = finished;
}

-- The terminal is restored twice.
test_twice : run_client console ≡ made_raw ∷ restored ∷ said_exit ∷ restored ∷ []
unfolding run_client
test_twice = refl
