-- ===== src/Cmd/SessionTests.antt =====
-- Runs of a whole session of cmd/gosh up to the call of `runClient`.
use gosh.Base.{
  All, ◌++◌, List, ℕ, [], ◌∷◌, Bytes, none, some, ok, ◌≡◌, ◌≢◌, refl, true, Bool, Result, err,
  false, equal,
}
use gosh.Termenv.{System, windows}
use gosh.Cmd.Attach.{cancelled}
use gosh.Cmd.Attach.Modes.{run_client_on, run_client_on-Leaves}
use gosh.Base.Text.{codes}
use gosh.Osc52.Policy.{write, parse_policy}
use gosh.Crypto.Key.{parse_base64_key, key_text}
use gosh.Bootstrap.HostKeys.{Os, Files, Callback, CheckError, check_key}
use gosh.Bootstrap.Agents.{by_peer}
use gosh.Bootstrap.Tests.{ssh, one_key, encode, known_key}
use gosh.Bootstrap.StartTests.{server, plain_encoding, system, key, env}
use gosh.Cmd.Tests.{names}
use gosh.Cmd.Auth.{
  Login, passphrase_missing, Method, public_keys, agents, password, auth_methods,
  auth_methods-IsOrdered, IsIdentity, AreAgents, IsPassword,
}
use gosh.Cmd.Session.{World, RootOptions, Attach, connect}
use gosh.Bootstrap.KnownHosts.{PublicKey}

-- A key that wants a passphrase, and a terminal to ask on.
abbrev login : Login
login = record {
  read_file = λ path. some path;
  parse_private_key = λ pem. passphrase_missing;
  parse_with_passphrase = λ pem secret. some 7;
  stdin_terminal = true;
  read_password = some (codes "word");
}

abbrev methods : List Method
methods = public_keys 7 ∷ agents (5 ∷ []) ∷ password 3 ∷ []

three_methods : auth_methods login (codes "id") (5 ∷ []) ≡ ok methods
unfolding auth_methods gosh.Base.equal
three_methods = refl

auth_methods-IsOrdered_example :
    (methods ≢ [])
    × (keys : List Method) × (agent : List Method) × (asked : List Method) × (methods
        ≡ keys ++ (agent ++ asked))
    × IsIdentity login (codes "id") keys
    × AreAgents (5 ∷ []) agent
    × IsPassword true asked
auth_methods-IsOrdered_example =
    auth_methods-IsOrdered login (codes "id") (5 ∷ []) methods three_methods

abbrev os : Os
os = record {
  home = some (codes "h");
  join = λ parts. codes "k";
  dir = λ path. [];
  makes_dir = λ path. true;
  creates = λ path. true;
  reads = λ path. true;
  opens = λ path. true;
  writes = λ line. none;
}

abbrev files : Files
files = λ path. some []

abbrev offered : Bytes → PublicKey
offered addr = known_key

abbrev is_ok : Result CheckError (Unit {0}) → Bool
is_ok (ok done) = true
is_ok (err e) = false

-- A server whose client asks its callback about the key of the host.
abbrev takes : Callback → Bytes → Bool
takes callback addr = is_ok (check_key os one_key encode callback files addr addr (offered addr)).1

abbrev world : World
world = record {
  names = names;
  os = os;
  known = one_key;
  ssh = ssh;
  unmatchable = none;
  login = login;
  check = by_peer;
  goos = codes "linux";
  system = system;
  server =
      λ user auth callback. record server { dial = λ addr algorithms timeout. takes callback addr };
  base64 = plain_encoding;
  env = env;
}

abbrev options : RootOptions
options = record {
  ssh_port = 22;
  udp_port = [];
  server = codes "mosh-server";
  identity = codes "id";
  known_hosts = [];
  host_key = codes "accept-new";
  dotvault = codes "auto";
  clipboard = codes "write";
}

abbrev attach : Attach
attach = record { addr = codes "10.0.0.1"; key = key; clipboard = write }

abbrev connected : Attach
connected = record { addr = codes "h"; key = key; clipboard = write }

connect_attached :
    (connect plain_encoding
      (λ host port. host)
      options
      (key_text plain_encoding key)
      (codes "h")
      (codes "60001")).1
    ≡ ok connected
unfolding connect parse_policy gosh.Base.equal parse_base64_key
connect_attached = refl

-- A console of Windows that takes every mode.
abbrev console : System
console = record {
  platform = windows;
  raw = λ mode. some 0;
  restores = true;
  is_console = true;
  sets = λ mode. true;
  size = none;
}

run_client_on-Leaves_example :
    ((run_client_on console (record { input = 7; output = 3 }) true true cancelled).0
      ≡ record { input = 7; output = 3 })
    × All
        (λ u. u ≡ record { input = 7; output = 3 })
        (run_client_on console (record { input = 7; output = 3 }) true true cancelled).1
run_client_on-Leaves_example =
    run_client_on-Leaves console (record { input = 7; output = 3 }) true true cancelled refl refl
