-- ===== src/Cmd/Session/Verified.antt =====
-- cmd/gosh/root.go: what a session that is attached has gone through.
use gosh.Base.{ℕ, ◌≤◌, List, [], Bytes, Option, some, ok, true, ◌==◌, ◌≡◌, if◌then◌else◌}
use gosh.Osc52.Policy.{Policy, parse_policy}
use gosh.Crypto.Key.{parse_base64_key}
use gosh.Bootstrap.KnownHosts.{PublicKey}
use gosh.Bootstrap.Algorithms.{known_host_key_algorithms}
use gosh.Bootstrap.HostKeys.{Files, Callback, check_key}
use gosh.Bootstrap.Command.{server_command_line}
use gosh.Bootstrap.Output.{Match, find_connect}
use gosh.Bootstrap.Run.{SshServer, atoi, host_or}
use gosh.Bootstrap.Agents.{dial_agents}
use gosh.Cmd.Auth.{Method, auth_methods}
use gosh.Cmd.Session.Trusted.{IsTrusted}
use gosh.Cmd.Session.{World, RootOptions, Attach, known_hosts_path, preference_file, algorithms}

-- What the code relies on in x/crypto's `ssh.Dial`, at the files that it finds: it succeeds only where the
-- callback that it is configured with takes the key of the host that answers at the address.
pub record IsSsh (w : World) (encode : Bytes → Bytes) (files : Files) (remote : Bytes → Bytes)
    (host_key : Bytes → PublicKey) : Type 0 where
  pub dial-takes :
      (user addr : Bytes) (auth : List Method) (callback : Callback) (algorithms : List Bytes)
      (timeout : ℕ)
      → (w.server user auth callback).dial addr algorithms timeout ≡ true
      → (check_key w.os w.known encode callback files addr (remote addr) (host_key addr)).1 ≡ ok tt

-- What stands behind a session that is attached to `a`, with the files `files` left, for the user and
-- the host `target`: `ssh` is the server that answers with the methods and the callback.
pub record IsVerified (w : World) (opts : RootOptions) (target : Bytes × Bytes)
    (remote_command : List Bytes) (files : Files) (remote : Bytes → Bytes)
    (host_key : Bytes → PublicKey) (a : Attach) : Type 0 where
  pub callback : Callback
  pub auth : List Method
  pub ssh : SshServer
  pub addr : Bytes
  pub preference : Option Bytes
  pub output : Bytes
  pub found : Match
  pub clipboard_ok : parse_policy opts.clipboard ≡ ok a.clipboard
  pub auth_ok :
      auth_methods w.login opts.identity (dial_agents w.check w.goos w.system opts.dotvault)
      ≡ ok auth
  pub server_ok : ssh ≡ w.server target.0 auth callback
  pub address_ok :
      addr ≡ ssh.join_host_port target.1 (if opts.ssh_port == 0 then 22 else opts.ssh_port)
  pub dialed :
      ssh.dial addr
        (known_host_key_algorithms w.ssh w.known w.unmatchable preference addr)
        10000000000
      ≡ true
  pub trusted :
      IsTrusted w.known files opts.host_key
        (known_hosts_path w.os opts.known_hosts)
        addr
        (remote addr)
        (host_key addr)
        preference
  pub ran :
      ssh.combined_output (
        server_command_line
          (record {
            udp_port = opts.udp_port;
            server_command = opts.server;
            remote_command = remote_command;
            term = [];
          })
          w.env)
      ≡ (output, true)
  pub matched : find_connect output ≡ some found
  pub key_ok : parse_base64_key w.base64 found.key ≡ ok a.key
  pub port_ok : (1 ≤ atoi 0 found.port) × (atoi 0 found.port ≤ 65535)
  pub addr_ok :
      a.addr
      ≡ ssh.join_host_port (host_or target.1 (ssh.split_host ssh.remote_addr)) (atoi 0 found.port)
