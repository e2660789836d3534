-- ===== src/Bootstrap/Run.antt =====
-- internal/bootstrap/bootstrap.go: `Run`. The connection of golang.org/x/crypto/ssh and net's
-- functions on addresses are parameters.
use gosh.Base.{
  ℕ, ◌+◌, ◌-◌, ◌*◌, List, [], ◌∷◌, Bytes, equal, Option, none, some, Result, ok, err, Bool, not,
  ltb, ◌==◌, ◌||◌, if◌then◌else◌,
}
use gosh.Crypto.Key.{Base64, KeyError, parse_base64_key}
use gosh.Bootstrap.Command.{CommandOptions, Env, server_command_line}
use gosh.Bootstrap.Output.{Match, find_connect, redact_keys}

pub record Options : Type 0 where
  pub host : Bytes
  pub ssh_port : ℕ
  pub command : CommandOptions
  pub has_callback : Bool
  pub timeout : ℕ

-- What x/crypto and the network answer: whether the dial of an address with host key algorithms and a time limit
-- and a new session succeed, the combined output of a command and whether it succeeded, and the
-- address at the other end.
pub record SshServer : Type 0 where
  pub dial : Bytes → List Bytes → ℕ → Bool
  pub new_session : Bool
  pub combined_output : Bytes → Bytes × Bool
  pub remote_addr : Bytes
  pub join_host_port : Bytes → ℕ → Bytes
  pub split_host : Bytes → Option Bytes

pub data RunError : Type 0 where
  no_host : RunError
  no_callback : RunError
  dial_failed : Bytes → RunError
  session_failed : RunError
  server_failed : Bytes → RunError
  no_connect_line : Bytes → RunError
  bad_port : Bytes → RunError
  bad_key : KeyError → RunError

-- `Result`
pub record Started : Type 0 where
  pub addr : Bytes
  pub port : ℕ
  pub key : Bytes
  pub server_output : Bytes

abbrev pub or_default : ℕ → ℕ → ℕ
or_default n default = if n == 0 then default else n

-- `strconv.Atoi` of digits.
unfoldable pub atoi : ℕ → Bytes → ℕ
atoi acc [] = acc
atoi acc (c ∷ s) = atoi (acc * 10 + (c - b'0')) s

abbrev pub host_or : Bytes → Option Bytes → Bytes
host_or host none = host
host_or host (some h) = h

abbrev pub with_parsed :
    SshServer → Options → Bytes → ℕ → Result KeyError Bytes → Result RunError Started
with_parsed ssh opts output port (err e) = err (bad_key e)
with_parsed ssh opts output port (ok key) = ok (record {
  addr = ssh.join_host_port (host_or opts.host (ssh.split_host ssh.remote_addr)) port;
  port = port;
  key = key;
  server_output = redact_keys output;
})

abbrev pub on_match : SshServer → Base64 → Options → Bytes → Option Match → Result RunError Started
on_match ssh e opts output none = err (no_connect_line (redact_keys output))
on_match ssh e opts output (some m) =
    if ltb (atoi 0 m.port) 1 || ltb 65535 (atoi 0 m.port)
    then err (bad_port m.port)
    else with_parsed ssh opts output (atoi 0 m.port) (parse_base64_key e m.key)

abbrev pub on_output : SshServer → Base64 → Options → Bytes × Bool → Result RunError Started
on_output ssh e opts (output, succeeded) =
    if not succeeded
    then err (server_failed (redact_keys output))
    else on_match ssh e opts output (find_connect output)

abbrev pub ssh_addr : SshServer → Options → Bytes
ssh_addr ssh opts = ssh.join_host_port opts.host (or_default opts.ssh_port 22)

-- The texts of errors keep the space around the output. `algorithms` is `knownHostKeyAlgorithms` at the address; ten seconds in nanoseconds are the default.
unfoldable pub run :
    SshServer → Base64 → Env → (Bytes → List Bytes) → Options → Result RunError Started
unfolding server_command_line
run ssh e env algorithms opts =
    if equal opts.host []
    then err no_host
    else if not opts.has_callback
    then err no_callback
    else if not (
        ssh.dial (ssh_addr ssh opts) (algorithms (ssh_addr ssh opts))
          (or_default opts.timeout 10000000000))
    then err (dial_failed (ssh_addr ssh opts))
    else if not ssh.new_session
    then err session_failed
    else on_output ssh e opts (ssh.combined_output (server_command_line opts.command env))
