-- ===== src/Bootstrap/Command.antt =====
-- internal/bootstrap/bootstrap.go: `serverCommand` and `shellQuote`.
use gosh.Base.{
  ℕ, ◌-◌, List, [], ◌∷◌, ◌++◌, Bytes, map, equal, Bool, true, false, not, leb, ◌==◌, ◌&&◌, ◌||◌,
  if◌then◌else◌,
}
use gosh.Base.Text.{codes}

-- The fields of `Options` that the command is built from.
pub record CommandOptions : Type 0 where
  pub udp_port : Bytes
  pub server_command : Bytes
  pub remote_command : List Bytes
  pub term : Bytes

-- The variables TERM and LANG of the environment.
pub record Env : Type 0 where
  pub term : Bytes
  pub lang : Bytes

-- The characters for which `shellQuote` quotes.
abbrev pub quoted_chars : Bytes
quoted_chars = codes " \t\n\"'\\$`!*?[]{}();<>|&~#"

unfoldable pub has_char : Bytes → ℕ → Bool
has_char [] c = false
has_char (d ∷ ds) c = d == c || has_char ds c

-- `strings.ContainsAny`
unfoldable pub contains_any : Bytes → Bytes → Bool
unfolding has_char
contains_any [] chars = false
contains_any (c ∷ s) chars = has_char chars c || contains_any s chars

-- `strings.ReplaceAll` of each single quote.
unfoldable pub escape_quotes : Bytes → Bytes
escape_quotes [] = []
escape_quotes (c ∷ s) =
    let rest = escape_quotes s in
    if c == b'\'' then b'\'' ∷ b'\\' ∷ b'\'' ∷ b'\'' ∷ rest else c ∷ rest

unfoldable pub shell_quote : Bytes → Bytes
unfolding contains_any escape_quotes
shell_quote s =
    if equal s []
    then b'\'' ∷ b'\'' ∷ []
    else if not (contains_any s quoted_chars)
    then s
    else b'\'' ∷ (escape_quotes s ++ b'\'' ∷ [])

-- `strings.ToUpper`, of which the tests below see the ASCII letters only.
abbrev to_upper : Bytes → Bytes
to_upper = map (λ c. if leb b'a' c && leb c b'z' then c - 32 else c)

abbrev has_prefix : Bytes → Bytes → Bool
has_prefix s [] = true
has_prefix [] (p ∷ ps) = false
has_prefix (c ∷ s) (p ∷ ps) = c == p && has_prefix s ps

-- `strings.Contains`
abbrev contains : Bytes → Bytes → Bool
contains [] sub = has_prefix [] sub
contains (c ∷ s) sub = has_prefix (c ∷ s) sub || contains s sub

-- `strings.Join` with spaces.
unfoldable pub join : List Bytes → Bytes
join [] = []
join (p ∷ []) = p
join (p ∷ q ∷ parts) = p ++ (b' ' ∷ join (q ∷ parts))

abbrev pub or_else : Bytes → Bytes → Bytes
or_else s other = if equal s [] then other else s

unfoldable pub server_of : CommandOptions → Bytes
server_of opts = or_else opts.server_command (codes "mosh-server")

unfoldable pub term_of : CommandOptions → Env → Bytes
term_of opts env = or_else (or_else opts.term env.term) (codes "xterm-256color")

unfoldable pub lang_of : Env → Bytes
lang_of env =
    if not (contains (to_upper env.lang) (codes "UTF-8"))
      && not (contains (to_upper env.lang) (codes "UTF8"))
    then codes "C.UTF-8"
    else env.lang

abbrev pub port_parts : Bytes → List Bytes
port_parts udp_port = if equal udp_port [] then [] else codes "-p" ∷ shell_quote udp_port ∷ []

abbrev pub remote_parts : List Bytes → List Bytes
remote_parts [] = []
remote_parts (a ∷ args) = codes "--" ∷ map shell_quote (a ∷ args)

unfoldable pub server_parts : CommandOptions → Env → List Bytes
unfolding server_of term_of lang_of shell_quote
server_parts opts env =
    (codes "TERM=" ++ shell_quote (term_of opts env))
    ∷ server_of opts
    ∷ codes "new"
    ∷ codes "-c"
    ∷ codes "256"
    ∷ codes "-l"
    ∷ shell_quote (codes "LANG=" ++ lang_of env)
    ∷ (port_parts opts.udp_port ++ remote_parts opts.remote_command)

unfoldable pub server_command_line : CommandOptions → Env → Bytes
unfolding server_parts join
server_command_line opts env = join (server_parts opts env)
