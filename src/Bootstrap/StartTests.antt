-- ===== src/Bootstrap/StartTests.antt =====
-- Runs of the start of the server and of the agents in internal/bootstrap.
use gosh.Base.{
  [], ◌∷◌, ◌++◌, Bytes, take, replicate, equal, All, append_assoc, length-append,
  take-append_of_length, none, some, ok, true, false, ◌≡◌, refl, ap, ◌∙◌, arith,
}
use gosh.Base.Text.{codes}
use gosh.Crypto.Key.{Base64, IsBase64, key_text}
use gosh.Bootstrap.Command.{
  CommandOptions, Env, server_of, contains_any, quoted_chars, server_command_line,
}
use gosh.Bootstrap.Shell.{sh_words}
use gosh.Bootstrap.Words.{command_words, sh_words-server_command_line}
use gosh.Bootstrap.Output.{is_key_char, find_connect, redact_keys}
use gosh.Bootstrap.Redaction.{find_connect-redact_keys}
use gosh.Bootstrap.Run.{Options, SshServer, Started, run}
use gosh.Bootstrap.Started.{connect_output, run-connect_output}
use gosh.Bootstrap.Agents.{System, by_peer, FileInfo, dial_agents}
use gosh.Bootstrap.Trust.{IsTrusted, dial_agents-IsTrusted}

abbrev command : CommandOptions
command = record {
  udp_port = codes "60000:61000";
  server_command = [];
  remote_command = codes "sh" ∷ codes "-c" ∷ codes "echo 'it'; $x" ∷ [] ∷ [];
  term = [];
}

abbrev pub env : Env
env = record { term = codes "x y"; lang = codes "en_US.utf8" }

server_plain : contains_any (server_of command) quoted_chars ≡ false
unfolding contains_any server_of gosh.Bootstrap.Command.has_char equal
server_plain = refl

sh_words-server_command_line_example :
    sh_words (server_command_line command env) ≡ some (command_words command env)
sh_words-server_command_line_example = sh_words-server_command_line command env server_plain

-- An encoding of 16 bytes in 24 characters, of which the first 16 are the bytes.
abbrev pub key : Bytes
key = replicate 16 b'k'

abbrev pub plain_encoding : Base64
plain_encoding = record {
  encode = λ k. (k ++ replicate 6 b'A') ++ (b'=' ∷ b'=' ∷ []);
  decode = λ s. some (take 16 s);
}

plain_encoding-IsBase64 : IsBase64 plain_encoding
plain_encoding-IsBase64 = record {
  encode-key =
      λ k b h. (k ++ replicate 6 b'A', omega (arith, length-append k (replicate 6 b'A')), refl);
  decode-encode = λ k b h.
      ap (λ s. some (take 16 s)) (append_assoc k (replicate 6 b'A') (b'=' ∷ b'=' ∷ []))
      ∙ ap some (take-append_of_length 16 k (replicate 6 b'A' ++ (b'=' ∷ b'=' ∷ [])) h);
}

abbrev pub output : Bytes
output =
    connect_output (codes "\n\n") (codes "60001") (key_text plain_encoding key) (codes "\nbye\n")

abbrev pub server : SshServer
server = record {
  dial = λ addr algorithms timeout. true;
  new_session = true;
  combined_output = λ line. (output, true);
  remote_addr = codes "10.0.0.1:22";
  join_host_port = λ host port. host;
  split_host = λ addr. some (codes "10.0.0.1");
}

abbrev options : Options
options = record {
  host = codes "h";
  ssh_port = 0;
  command = command;
  has_callback = true;
  timeout = 0;
}

host_given : equal (codes "h") [] ≡ false
unfolding equal
host_given = refl

port_value : gosh.Bootstrap.Run.atoi 0 (codes "60001") ≡ 60001
unfolding gosh.Bootstrap.Run.atoi
port_value = refl

run-connect_output_example :
    run server plain_encoding env (λ addr. []) options
    ≡ ok (record {
      addr = codes "10.0.0.1";
      port = gosh.Bootstrap.Run.atoi 0 (codes "60001");
      key = key;
      server_output = redact_keys output;
    })
run-connect_output_example =
    run-connect_output server plain_encoding env (λ addr. []) options (codes "\n\n") (codes "60001")
      key (codes "\nbye\n") host_given refl refl refl refl (ground arith) (ground arith)
      (omega arith) (omega arith) (omega (arith, port_value)) (omega (arith, port_value))
      plain_encoding-IsBase64 (ground arith) refl (ground arith)

test_redact : redact_keys output ≡ codes "\n\nMOSH CONNECT 60001 <key redacted>\nbye\n"
unfolding gosh.Bootstrap.Output.redact_from
test_redact = refl

find_connect-redact_keys_example : find_connect (redact_keys output) ≡ none
find_connect-redact_keys_example = find_connect-redact_keys output

-- Two agents: one of the current user and one of another.
abbrev pub system : System
system = record {
  getenv = λ name. [];
  home = some (codes "/home/me");
  join = λ parts. codes "/home/me/.cache/dotvault/agent.sock";
  dial = λ path. some 5;
  dial_pipe = λ path. none;
  peer_uid = λ conn. some 1000;
  lstat = λ path. none;
  geteuid = 1000;
  signers = λ conn. none;
}

test_dial : dial_agents by_peer (codes "linux") system (codes "auto") ≡ 5 ∷ []
unfolding dial_agents gosh.Bootstrap.Agents.resolve_dotvault_endpoint
    gosh.Bootstrap.Agents.dotvault_agent_socket equal
test_dial = refl

test_foreign :
    dial_agents by_peer (codes "linux") (record system { geteuid = 7 }) (codes "auto") ≡ []
unfolding dial_agents gosh.Bootstrap.Agents.resolve_dotvault_endpoint
    gosh.Bootstrap.Agents.dotvault_agent_socket equal
test_foreign = refl

dial_agents-IsTrusted_example :
    All (IsTrusted system) (dial_agents by_peer (codes "linux") system (codes "auto"))
dial_agents-IsTrusted_example = dial_agents-IsTrusted (codes "linux") system (codes "auto")
