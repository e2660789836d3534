-- ===== src/Bootstrap/Started.antt =====
-- internal/bootstrap/bootstrap.go: `Run` finds the port and the key that the server printed.
use gosh.Base.{
  ==_refl, Option-cases, ℕ, zero, suc, ◌≤◌, List, [], ◌∷◌, ◌++◌, Bytes, IsBytes, length, equal,
  none, some, ok, All, Bool, true, false, ltb, ◌==◌, ◌&&◌, ◌≡◌, inl, inr, refl, ap, ◌∙◌, arith,
}
use gosh.Crypto.Key.{
  Base64, IsBase64, key_text, parse_base64_key, parse_base64_key_iff, length-key_text,
}
use gosh.Bootstrap.Command.{Env, server_command_line}
use gosh.Bootstrap.Output.{
  Match, span, is_digit, is_key_char, strip_prefix, line_end, after_prefix, with_port, with_key,
  either, connect_prefix, match_here, find_from, find_connect, redact_keys,
}
use gosh.Bootstrap.Run.{
  Options, SshServer, atoi, or_default, ssh_addr, run, host_or, on_output, on_match, with_parsed,
}

pub span-stops :
    (p : ℕ → Bool) (n : ℕ) (front : Bytes) (c : ℕ) (rest : Bytes)
    → All (λ x. p x ≡ true) front
    → length front ≤ n
    → p c ≡ false
    → span p n (front ++ c ∷ rest) ≡ (front, c ∷ rest)
unfolding span
span-stops p zero [] c rest h l e = refl
span-stops p zero (x ∷ front) c rest h l e = absurd (omega arith)
span-stops p (suc n) [] c rest h l e = rw e refl
span-stops p (suc n) (x ∷ front) c rest (h, hs) l e =
    rw h (ap (λ s. (x ∷ s.0, s.1)) (span-stops p n front c rest hs (omega arith) e))

span-full :
    (p : ℕ → Bool) (n : ℕ) (front rest : Bytes)
    → All (λ x. p x ≡ true) front
    → length front ≡ n
    → span p n (front ++ rest) ≡ (front, rest)
unfolding span
span-full p zero [] rest h l = refl
span-full p zero (x ∷ front) rest h l = absurd (omega arith)
span-full p (suc n) [] rest h l = absurd (omega arith)
span-full p (suc n) (x ∷ front) rest (h, hs) l =
    rw h (ap (λ s. (x ∷ s.0, s.1)) (span-full p n front rest hs (omega arith)))

line_end-newline : (rest : Bytes) → (behind : Bytes) × (line_end (10 ∷ rest) ≡ some behind)
unfolding line_end
line_end-newline rest = elim (Option-cases (line_end rest)) [
  | inl e ↦ (10 ∷ rest, rw e refl)
  | inr (b, e) ↦ (b, rw e refl)
]

pub strip_prefix-append : (p rest : Bytes) → strip_prefix p (p ++ rest) ≡ some rest
unfolding strip_prefix
strip_prefix-append [] rest = refl
strip_prefix-append (c ∷ p) rest = rw (==_refl c) (strip_prefix-append p rest)

-- A line that the server prints.
abbrev pub connect_line : Bytes → Bytes → Bytes
connect_line port key = connect_prefix ++ (port ++ (b' ' ∷ (key ++ b'\n' ∷ [])))

match_here-connect_line :
    (port key rest : Bytes)
    → All (λ c. is_digit c ≡ true) port
    → 1 ≤ length port
    → length port ≤ 5
    → All (λ c. is_key_char c ≡ true) key
    → length key ≡ 22
    → (behind : Bytes) × (match_here (connect_prefix ++ (port ++ (b' ' ∷ (key ++ (b'\n' ∷ rest)))))
        ≡ some (record { port = port; key = key; behind = behind }))
unfolding match_here
match_here-connect_line port key rest d l m k n =
    let (behind, e) = line_end-newline rest in
    let some_port : (length port == 0) ≡ false = ground arith in
    let whole : (length key == 22) ≡ true = ground arith in
    (
      behind,
      ap after_prefix
            (strip_prefix-append connect_prefix (port ++ (b' ' ∷ (key ++ (b'\n' ∷ rest)))))
          ∙ ap with_port (span-stops is_digit 5 port b' ' (key ++ (b'\n' ∷ rest)) d m refl)
          ∙ rw some_port refl
          ∙ ap (with_key port) (span-full is_key_char 22 key (b'\n' ∷ rest) k n)
          ∙ rw whole (rw e refl),
    )

-- A text after which a line starts, of which no line begins with an M.
abbrev pub IsQuiet : Bool → Bytes → Type 0
IsQuiet starts [] = starts ≡ true
IsQuiet starts (c ∷ s) = ((starts && (c == b'M')) ≡ false) × IsQuiet (c == 10) s

pub match_here-other : (c : ℕ) (s : Bytes) → (c == b'M') ≡ false → match_here (c ∷ s) ≡ none
unfolding match_here strip_prefix
match_here-other c s h = let apart : (b'M' == c) ≡ false = ground arith in rw apart refl

find_from-quiet :
    (starts : Bool) (before s : Bytes)
    → IsQuiet starts before
    → find_from starts (before ++ s) ≡ find_from true s
unfolding find_from
find_from-quiet starts [] s h = ap (λ t. find_from t s) h
find_from-quiet true (c ∷ before) s (h, hs) =
    ap (λ m. either m (find_from (c == 10) (before ++ s))) (match_here-other c (before ++ s) h)
    ∙ find_from-quiet (c == 10) before s hs
find_from-quiet false (c ∷ before) s (h, hs) = find_from-quiet (c == 10) before s hs

find_from-match :
    (c : ℕ) (s : Bytes) {m : Match} → match_here (c ∷ s) ≡ some m → find_from true (c ∷ s) ≡ some m
unfolding find_from
find_from-match c s e = ap (λ m. either m (find_from (c == 10) s)) e

-- The output of a server that starts.
abbrev pub connect_output : Bytes → Bytes → Bytes → Bytes → Bytes
connect_output before port key rest =
    before ++ (connect_prefix ++ (port ++ (b' ' ∷ (key ++ (b'\n' ∷ rest)))))

find_connect-output :
    (before port key rest : Bytes)
    → IsQuiet true before
    → All (λ c. is_digit c ≡ true) port
    → 1 ≤ length port
    → length port ≤ 5
    → All (λ c. is_key_char c ≡ true) key
    → length key ≡ 22
    → (behind : Bytes) × (find_connect (connect_output before port key rest)
        ≡ some (record { port = port; key = key; behind = behind }))
find_connect-output before port key rest q d l m k n =
    let (behind, e) = match_here-connect_line port key rest d l m k n in
    (
      behind,
      find_from-quiet true before (connect_prefix ++ (port ++ (b' ' ∷ (key ++ (b'\n' ∷ rest))))) q
          ∙ find_from-match b'M' _ e,
    )

on_match-port :
    (ssh : SshServer) (e : Base64) (opts : Options) (output : Bytes) (m : Match)
    → 1 ≤ atoi 0 m.port
    → atoi 0 m.port ≤ 65535
    → on_match ssh e opts output (some m)
      ≡ with_parsed ssh opts output (atoi 0 m.port) (parse_base64_key e m.key)
on_match-port ssh e opts output m l h =
    let low : ltb (atoi 0 m.port) 1 ≡ false = ground arith in
    let high : ltb 65535 (atoi 0 m.port) ≡ false = ground arith in rw (low, high) refl

-- Where the dial under the algorithms given for the address and the session succeed, and the command
-- succeeds with an output in which a line tells a port of at most five digits, from 1 to 65535, and
-- the text of a key, with no line before that begins with an M, the result has this port, this key,
-- the address of the connection's own host with the port, and the output without its keys.
pub run-connect_output :
    (ssh : SshServer) (e : Base64) (env : Env) (algorithms : Bytes → List Bytes) (opts : Options)
    (before port key rest : Bytes)
    → equal opts.host [] ≡ false
    → opts.has_callback ≡ true
    → ssh.dial
        (ssh_addr ssh opts)
        (algorithms (ssh_addr ssh opts))
        (or_default opts.timeout 10000000000)
      ≡ true
    → ssh.new_session ≡ true
    → ssh.combined_output (server_command_line opts.command env)
      ≡ (connect_output before port (key_text e key) rest, true)
    → IsQuiet true before
    → All (λ c. is_digit c ≡ true) port
    → 1 ≤ length port
    → length port ≤ 5
    → 1 ≤ atoi 0 port
    → atoi 0 port ≤ 65535
    → IsBase64 e
    → IsBytes key
    → length key ≡ 16
    → All (λ c. is_key_char c ≡ true) (key_text e key)
    → run ssh e env algorithms opts
      ≡ ok (record {
        addr =
            ssh.join_host_port (host_or opts.host (ssh.split_host ssh.remote_addr)) (atoi 0 port);
        port = atoi 0 port;
        key = key;
        server_output = redact_keys (connect_output before port (key_text e key) rest);
      })
unfolding run
run-connect_output ssh e env algorithms opts before port key rest h c d s o q digits l m low high
      b64 bytes n chars =
    let shown : length (key_text e key) ≡ 22 = length-key_text e key b64 bytes n in
    let (behind, found) =
      find_connect-output before port (key_text e key) rest q digits l m chars shown in
    let output = connect_output before port (key_text e key) rest in
    let matched : Match = record { port = port; key = key_text e key; behind = behind } in
    rw (h, c, d, s)
      (ap (on_output ssh e opts) o
        ∙ ap (on_match ssh e opts output) found
        ∙ on_match-port ssh e opts output matched low high
        ∙ ap (with_parsed ssh opts output (atoi 0 port))
            ((parse_base64_key_iff e (key_text e key) key b64 bytes n).1 refl))
