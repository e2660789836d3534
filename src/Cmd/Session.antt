-- ===== src/Cmd/Session.antt =====
-- cmd/gosh/root.go: `runSession` and the connect command, up to their call of `runClient`, over the
-- components that they call.
pub mod Verified
pub mod Trusted
pub mod Connected
use gosh.Base.{
  ℕ, List, [], ◌∷◌, Bytes, equal, Option, none, some, Result, ok, err, true, if◌then◌else◌,
}
use gosh.Base.Text.{codes}
use gosh.Osc52.Policy.{Policy, PolicyError, parse_policy}
use gosh.Crypto.Key.{Base64, KeyError, parse_base64_key}
use gosh.Bootstrap.KnownHosts.{Ssh, PublicKey, KnownHosts}
use gosh.Bootstrap.Algorithms.{known_host_key_algorithms}
use gosh.Bootstrap.HostKeys.{
  Os, Files, Callback, CallbackError, default_known_hosts_path, host_key_callback,
}
use gosh.Bootstrap.Command.{Env}
use gosh.Bootstrap.Run.{SshServer, RunError, Started, run}
use gosh.Bootstrap.Agents.{System, Check, dial_agents}
use gosh.Cmd.Target.{Names, split_target, known_hosts_path_for_preference}
use gosh.Cmd.Auth.{Login, AuthError, Method, auth_methods}

-- `rootOptions`: the flags.
pub record RootOptions : Type 0 where
  pub ssh_port : ℕ
  pub udp_port : Bytes
  pub server : Bytes
  pub identity : Bytes
  pub known_hosts : Bytes
  pub host_key : Bytes
  pub dotvault : Bytes
  pub clipboard : Bytes

-- What the command meets: the SSH server answers under the user, the methods of authentication and
-- the callback that the client is configured with. `term` stands for an empty option.
pub record World : Type 0 where
  pub names : Names
  pub os : Os
  pub known : KnownHosts
  pub ssh : Ssh
  pub unmatchable : Option PublicKey
  pub login : Login
  pub check : Check
  pub goos : Bytes
  pub system : System
  pub server : Bytes → List Method → Callback → SshServer
  pub base64 : Base64
  pub env : Env

-- What `runClient` is called with.
pub record Attach : Type 0 where
  pub addr : Bytes
  pub key : Bytes
  pub clipboard : Policy

pub data SessionError : Type 0 where
  bad_clipboard : PolicyError → SessionError
  bad_callback : CallbackError → SessionError
  bad_auth : AuthError → SessionError
  not_started : RunError → SessionError

abbrev or_empty : Result CallbackError Bytes → Bytes
or_empty (ok path) = path
or_empty (err e) = []

-- The flag, or the default where it can be resolved.
unfoldable pub known_hosts_path : Os → Bytes → Bytes
known_hosts_path os flag =
    if equal flag [] then or_empty (default_known_hosts_path os os.home) else flag

-- The content of the file for the preference; no path, no file.
abbrev pub preference_file : Os → Files → Bytes → Option Bytes
preference_file os files path =
    if equal path [] then none else if os.reads path then files path else none

-- `knownHostKeyAlgorithms` at `Options.KnownHostsPath`.
abbrev pub algorithms : World → Files → Bytes → Bytes → List Bytes
algorithms w files path addr =
    known_host_key_algorithms w.ssh w.known w.unmatchable (preference_file w.os files path) addr

abbrev pub bootstrap_run :
    World
    → RootOptions
    → Bytes
    → Bytes
    → List Bytes
    → Bytes
    → Files
    → List Method
    → Callback
    → Result RunError Started
bootstrap_run w opts user host remote_command path files auth callback =
    run (w.server user auth callback) w.base64 w.env
      (algorithms w files (known_hosts_path_for_preference opts.host_key path))
      (record {
        host = host;
        ssh_port = opts.ssh_port;
        command = record {
          udp_port = opts.udp_port;
          server_command = opts.server;
          remote_command = remote_command;
          term = [];
        };
        has_callback = true;
        timeout = 0;
      })

abbrev attached : Policy → Result RunError Started → Result SessionError Attach
attached clipboard (err e) = err (not_started e)
attached clipboard (ok s) = ok (record { addr = s.addr; key = s.key; clipboard = clipboard })

abbrev with_auth :
    (List Method → Result RunError Started)
    → Policy
    → Result AuthError (List Method)
    → Result SessionError Attach
with_auth start clipboard (err e) = err (bad_auth e)
with_auth start clipboard (ok auth) = attached clipboard (start auth)

abbrev with_callback :
    World
    → RootOptions
    → Bytes × Bytes
    → List Bytes
    → Policy
    → Files × Result CallbackError Callback
    → Files × Result SessionError Attach
with_callback w opts target remote_command clipboard (files, err e) = (files, err (bad_callback e))
with_callback w opts (user, host) remote_command clipboard (files, ok callback) = (
  files,
  with_auth
      (λ auth.
        bootstrap_run w opts user host remote_command (known_hosts_path w.os opts.known_hosts) files
          auth callback)
      clipboard
      (auth_methods w.login opts.identity (dial_agents w.check w.goos w.system opts.dotvault)),
)

abbrev with_clipboard :
    World
    → RootOptions
    → Files
    → Bytes × Bytes
    → List Bytes
    → Result PolicyError Policy
    → Files × Result SessionError Attach
with_clipboard w opts files target remote_command (err e) = (files, err (bad_clipboard e))
with_clipboard w opts files target remote_command (ok clipboard) =
    with_callback w opts target remote_command clipboard
      (host_key_callback w.os w.known files opts.host_key (known_hosts_path w.os opts.known_hosts))

unfoldable pub run_session :
    World → RootOptions → Files → Bytes → List Bytes → Files × Result SessionError Attach
unfolding split_target known_hosts_path
run_session w opts files target remote_command =
    with_clipboard w opts files (split_target w.names target) remote_command
      (parse_policy opts.clipboard)

pub data ConnectError : Type 0 where
  connect_clipboard : PolicyError → ConnectError
  no_key : ConnectError
  bad_key : KeyError → ConnectError

abbrev keyed : Bytes → Policy → Result KeyError Bytes → Result ConnectError Attach
keyed addr clipboard (err e) = err (bad_key e)
keyed addr clipboard (ok key) = ok (record { addr = addr; key = key; clipboard = clipboard })

-- With what is left of the variable MOSH_KEY; `join` is `net.JoinHostPort`.
abbrev connect_with :
    Base64
    → (Bytes → Bytes → Bytes)
    → Bytes
    → Bytes
    → Bytes
    → Result PolicyError Policy
    → Bytes × Result ConnectError Attach
connect_with e join mosh_key host port (err x) = (mosh_key, err (connect_clipboard x))
connect_with e join mosh_key host port (ok clipboard) =
    if equal mosh_key []
    then (mosh_key, err no_key)
    else ([], keyed (join host port) clipboard (parse_base64_key e mosh_key))

unfoldable pub connect :
    Base64
    → (Bytes → Bytes → Bytes)
    → RootOptions
    → Bytes
    → Bytes
    → Bytes
    → Bytes × Result ConnectError Attach
connect e join opts mosh_key host port =
    connect_with e join mosh_key host port (parse_policy opts.clipboard)
