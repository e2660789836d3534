-- ===== src/Bootstrap/Succeeded.antt =====
-- internal/bootstrap/bootstrap.go: what stands behind a result of `Run`.
use gosh.Base.{
  ℕ, ◌≤◌, [], Bytes, List, equal, Option, none, some, Result, ok, err, Bool, true, false, not, ◌||◌,
  ltb, if◌then◌else◌, ◌≡◌, refl, sym, ap, ok_inj, arith,
}
use gosh.Crypto.Key.{Base64, KeyError, parse_base64_key}
use gosh.Bootstrap.Command.{Env, server_command_line}
use gosh.Bootstrap.Output.{Match, find_connect}
use gosh.Bootstrap.Run.{
  Options, SshServer, Started, atoi, host_or, or_default, with_parsed, on_match, on_output,
  ssh_addr, run,
}

-- The address was dialed with the host key algorithms, the command that starts the server
-- succeeded, and address and key are those of the line in its output.
pub record IsStarted (ssh : SshServer) (e : Base64) (env : Env) (algorithms : Bytes → List Bytes)
    (opts : Options) (s : Started) : Type 0 where
  pub output : Bytes
  pub found : Match
  pub dialed :
      ssh.dial
        (ssh.join_host_port opts.host (or_default opts.ssh_port 22))
        (algorithms (ssh.join_host_port opts.host (or_default opts.ssh_port 22)))
        (or_default opts.timeout 10000000000)
      ≡ true
  pub ran : ssh.combined_output (server_command_line opts.command env) ≡ (output, true)
  pub matched : find_connect output ≡ some found
  pub port_low : 1 ≤ atoi 0 found.port
  pub port_high : atoi 0 found.port ≤ 65535
  pub key_ok : parse_base64_key e found.key ≡ ok s.key
  pub addr_ok :
      s.addr
      ≡ ssh.join_host_port (host_or opts.host (ssh.split_host ssh.remote_addr)) (atoi 0 found.port)

passed {ℓ κ} :
    {E : Type ℓ} {A : Type κ} (b : Bool) (x : E) (r : Result E A) {v : A}
    → (if b then err x else r) ≡ ok v
    → (b ≡ false) × (r ≡ ok v)
passed true x r h = absurd cc
passed false x r h = (refl, h)

unnot : (b : Bool) → not b ≡ false → b ≡ true
unnot true e = refl
unnot false e = absurd cc

abbrev Found : SshServer → Base64 → Options → Bytes → Started → Type 0
Found ssh e opts output s =
    (m : Match) × (find_connect output ≡ some m)
    × (1 ≤ atoi 0 m.port)
    × (atoi 0 m.port ≤ 65535)
    × (parse_base64_key e m.key ≡ ok s.key)
    × (s.addr
        ≡ ssh.join_host_port (host_or opts.host (ssh.split_host ssh.remote_addr)) (atoi 0 m.port))

with_parsed-ok :
    (ssh : SshServer) (opts : Options) (output : Bytes) (port : ℕ) (r : Result KeyError Bytes)
    (s : Started)
    → with_parsed ssh opts output port r ≡ ok s
    → (r ≡ ok s.key)
      × (s.addr ≡ ssh.join_host_port (host_or opts.host (ssh.split_host ssh.remote_addr)) port)
with_parsed-ok ssh opts output port (err x) s h = absurd cc
with_parsed-ok ssh opts output port (ok key) s h =
    let same = ok_inj h in
    (ap (λ (q : Started). ok q.key) same, ap (λ (q : Started). q.addr) (sym same))

on_match-ok :
    (ssh : SshServer) (e : Base64) (opts : Options) (output : Bytes) (o : Option Match)
    (s : Started)
    → find_connect output ≡ o
    → on_match ssh e opts output o ≡ ok s
    → Found ssh e opts output s
on_match-ok ssh e opts output none s f h = absurd cc
on_match-ok ssh e opts output (some m) s f h =
    let (range, parsed) =
      passed (ltb (atoi 0 m.port) 1 || ltb 65535 (atoi 0 m.port)) _
        (with_parsed ssh opts output (atoi 0 m.port) (parse_base64_key e m.key)) h in
    let (key, addr) =
      with_parsed-ok ssh opts output (atoi 0 m.port) (parse_base64_key e m.key) s parsed in
    (m, f, ground (arith, range), ground (arith, range), key, addr)

on_output-ok :
    (ssh : SshServer) (e : Base64) (opts : Options) (r : Bytes × Bool) (s : Started)
    → on_output ssh e opts r ≡ ok s
    → (r ≡ (r.0, true)) × Found ssh e opts r.0 s
on_output-ok ssh e opts (output, succeeded) s h =
    let (fine, rest) =
      passed (not succeeded) _ (on_match ssh e opts output (find_connect output)) h in
    (
      ap (λ b. (output, b)) (unnot succeeded fine),
      on_match-ok ssh e opts output (find_connect output) s refl rest,
    )

pub run-IsStarted :
    (ssh : SshServer) (e : Base64) (env : Env) (algorithms : Bytes → List Bytes) (opts : Options)
    (s : Started)
    → run ssh e env algorithms opts ≡ ok s
    → IsStarted ssh e env algorithms opts s
unfolding run
run-IsStarted ssh e env algorithms opts s h =
    let addr = ssh_addr ssh opts in
    let (_, h1) = passed (equal opts.host []) _ _ h in
    let (_, h2) = passed (not opts.has_callback) _ _ h1 in
    let (d, h3) =
      passed (not (ssh.dial addr (algorithms addr) (or_default opts.timeout 10000000000))) _ _ h2 in
    let (_, h4) = passed (not ssh.new_session) _ _ h3 in
    let (ran, (m, matched, low, high, key, at)) =
      on_output-ok ssh e opts (ssh.combined_output (server_command_line opts.command env)) s h4 in
    record {
      output = (ssh.combined_output (server_command_line opts.command env)).0;
      found = m;
      dialed = unnot (ssh.dial addr (algorithms addr) (or_default opts.timeout 10000000000)) d;
      ran = ran;
      matched = matched;
      port_low = low;
      port_high = high;
      key_ok = key;
      addr_ok = at;
    }
