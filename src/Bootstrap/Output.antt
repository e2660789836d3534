-- ===== src/Bootstrap/Output.antt =====
-- internal/bootstrap/bootstrap.go: `connectRE`, the matches of it that `Run` and `RedactKeys` take in
-- the output of the server, and `RedactKeys`.
use gosh.Base.{
  ℕ, zero, suc, ◌-◌, [], ◌∷◌, ◌++◌, Bytes, length, Option, none, some, Bool, true, false, not, leb,
  ◌==◌, ◌&&◌, ◌||◌, if◌then◌else◌,
}
use gosh.Base.Text.{codes}

-- The text up to the first byte that fails a test, of at most `n` bytes, and what follows.
unfoldable pub span : (ℕ → Bool) → ℕ → Bytes → Bytes × Bytes
span p zero s = ([], s)
span p (suc n) [] = ([], [])
span p (suc n) (c ∷ s) =
    let (front, rest) = span p n s in if p c then (c ∷ front, rest) else ([], c ∷ s)

abbrev pub is_digit : ℕ → Bool
is_digit c = leb b'0' c && leb c b'9'

-- `[A-Za-z0-9/+]`
abbrev pub is_key_char : ℕ → Bool
is_key_char c =
    (leb b'A' c && leb c b'Z') || (leb b'a' c && leb c b'z') || is_digit c || c == b'/' || c == b'+'

-- `\s`
abbrev pub is_space : ℕ → Bool
is_space c = c == 9 || c == 10 || c == 12 || c == 13 || c == 32

unfoldable pub strip_prefix : Bytes → Bytes → Option Bytes
strip_prefix [] s = some s
strip_prefix (p ∷ ps) [] = none
strip_prefix (p ∷ ps) (c ∷ s) = if p == c then strip_prefix ps s else none

abbrev pub either {ℓ} : {A : Type ℓ} → Option A → Option A → Option A
either none b = b
either (some a) b = some a

-- `\s*$`: as many spaces as are followed by a newline or the end; what follows them.
unfoldable pub line_end : Bytes → Option Bytes
line_end [] = some []
line_end (c ∷ s) =
    let further = line_end s in
    if not (is_space c) then none else either further (if c == 10 then some (c ∷ s) else none)

-- A match at the start of a line: the port, the key and what follows the match.
pub record Match : Type 0 where
  pub port : Bytes
  pub key : Bytes
  pub behind : Bytes

abbrev pub with_end : Bytes → Bytes → Option Bytes → Option Match
with_end port key none = none
with_end port key (some behind) = some (record { port = port; key = key; behind = behind })

abbrev pub with_key : Bytes → Bytes × Bytes → Option Match
with_key port (key, rest) =
    if not (length key == 22) then none else with_end port key (line_end rest)

abbrev pub with_gap : Bytes → Option Bytes → Option Match
with_gap port none = none
with_gap port (some s) = with_key port (span is_key_char 22 s)

abbrev pub with_port : Bytes × Bytes → Option Match
with_port (port, rest) =
    if length port == 0 then none else with_gap port (strip_prefix (b' ' ∷ []) rest)

abbrev pub after_prefix : Option Bytes → Option Match
after_prefix none = none
after_prefix (some s) = with_port (span is_digit 5 s)

abbrev pub connect_prefix : Bytes
connect_prefix = codes "MOSH CONNECT "

unfoldable pub match_here : Bytes → Option Match
unfolding span strip_prefix line_end
match_here s = after_prefix (strip_prefix connect_prefix s)

-- The leftmost match; `starts` tells whether a line starts here.
unfoldable pub find_from : Bool → Bytes → Option Match
unfolding match_here
find_from starts [] = none
find_from starts (c ∷ s) =
    let rest = find_from (c == 10) s in either (if starts then match_here (c ∷ s) else none) rest

-- `connectRE.FindStringSubmatch`
abbrev pub find_connect : Bytes → Option Match
find_connect output = find_from true output

-- What `RedactKeys` puts for a match, or the byte where none begins; and how many bytes behind that
-- byte the match takes.
abbrev pub redacted : ℕ → Option Match → Bytes
redacted c none = c ∷ []
redacted c (some m) = connect_prefix ++ (m.port ++ codes " <key redacted>")

abbrev pub taken : ℕ → Option Match → ℕ
taken left none = 0
taken left (some m) = left - length m.behind

unfoldable pub redact_from : ℕ → Bool → Bytes → Bytes
unfolding match_here
redact_from skip starts [] = []
redact_from (suc skip) starts (c ∷ s) = redact_from skip false s
redact_from zero starts (c ∷ s) =
    let m = if starts then match_here (c ∷ s) else none in
    redacted c m ++ redact_from (taken (length s) m) (c == 10) s

-- `RedactKeys`
abbrev pub redact_keys : Bytes → Bytes
redact_keys output = redact_from 0 true output
