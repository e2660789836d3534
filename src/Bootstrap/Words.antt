-- ===== src/Bootstrap/Words.antt =====
-- internal/bootstrap/bootstrap.go: the words that a POSIX shell reads in the line of `serverCommand`.
use gosh.Base.{
  List, [], ◌∷◌, ◌++◌, Bytes, map, equal, some, append-nil, false, if◌then◌else◌, Bool-cases, ◌≡◌,
  inl, inr, refl, sym, ap, ◌∙◌,
}
use gosh.Base.Text.{codes}
use gosh.Bootstrap.Command.{
  CommandOptions, Env, quoted_chars, has_char, contains_any, shell_quote, join, or_else, server_of,
  term_of, lang_of, port_parts, remote_parts, server_parts, server_command_line,
}
use gosh.Bootstrap.Shell.{gap, put_first, words_from, sh_words}
use gosh.Bootstrap.Quoting.{Denotes, Denotes-plain, Denotes-shell_quote, Denotes-prefix}

-- The parts of a line, and the words that they denote.
abbrev pub DenoteAll : List Bytes → List Bytes → Type 0
DenoteAll [] [] = Unit {0}
DenoteAll [] (w ∷ ws) = ⊥
DenoteAll (p ∷ ps) [] = ⊥
DenoteAll (p ∷ ps) (w ∷ ws) = Denotes p w × DenoteAll ps ws

join-DenoteAll : (parts ws : List Bytes) → DenoteAll parts ws → sh_words (join parts) ≡ some ws
unfolding join words_from
join-DenoteAll [] [] h = refl
join-DenoteAll [] (w ∷ ws) h = absurd h
join-DenoteAll (p ∷ ps) [] h = absurd h
join-DenoteAll (p ∷ []) (w ∷ []) (h, hs) = ap (words_from gap) (sym (append-nil p)) ∙ h []
join-DenoteAll (p ∷ []) (w ∷ v ∷ ws) (h, hs) = absurd hs
join-DenoteAll (p ∷ q ∷ ps) (w ∷ []) (h, hs) = absurd hs
join-DenoteAll (p ∷ q ∷ ps) (w ∷ v ∷ ws) (h, hs) =
    h (b' ' ∷ join (q ∷ ps)) ∙ ap (put_first w) (join-DenoteAll (q ∷ ps) (v ∷ ws) hs)

DenoteAll-append :
    (ps qs ws vs : List Bytes) → DenoteAll ps ws → DenoteAll qs vs → DenoteAll (ps ++ qs) (ws ++ vs)
DenoteAll-append [] qs [] vs h k = k
DenoteAll-append [] qs (w ∷ ws) vs h k = absurd h
DenoteAll-append (p ∷ ps) qs [] vs h k = absurd h
DenoteAll-append (p ∷ ps) qs (w ∷ ws) vs (h, hs) k = (h, DenoteAll-append ps qs ws vs hs k)

pub DenoteAll-map : (args : List Bytes) → DenoteAll (map shell_quote args) args
DenoteAll-map [] = tt
DenoteAll-map (a ∷ args) = (Denotes-shell_quote a, DenoteAll-map args)

abbrev port_words : Bytes → List Bytes
port_words udp_port = if equal udp_port [] then [] else codes "-p" ∷ udp_port ∷ []

abbrev remote_words : List Bytes → List Bytes
remote_words [] = []
remote_words (a ∷ args) = codes "--" ∷ a ∷ args

-- The words of the command that the options ask for.
abbrev pub command_words : CommandOptions → Env → List Bytes
command_words opts env =
    (codes "TERM=" ++ term_of opts env)
    ∷ server_of opts
    ∷ codes "new"
    ∷ codes "-c"
    ∷ codes "256"
    ∷ codes "-l"
    ∷ (codes "LANG=" ++ lang_of env)
    ∷ (port_words opts.udp_port ++ remote_words opts.remote_command)

-- The words that stand in the code are plain ones.
literal :
    (Denotes (codes "TERM=") (codes "TERM="))
    × (Denotes (codes "new") (codes "new"))
    × (Denotes (codes "-c") (codes "-c"))
    × (Denotes (codes "256") (codes "256"))
    × (Denotes (codes "-l") (codes "-l"))
    × (Denotes (codes "-p") (codes "-p"))
    × (Denotes (codes "--") (codes "--"))
unfolding contains_any has_char
literal = (
  Denotes-plain _ _ refl,
  Denotes-plain _ _ refl,
  Denotes-plain _ _ refl,
  Denotes-plain _ _ refl,
  Denotes-plain _ _ refl,
  Denotes-plain _ _ refl,
  Denotes-plain _ _ refl,
)

Denotes-server :
    (s : Bytes)
    → contains_any (or_else s (codes "mosh-server")) quoted_chars ≡ false
    → Denotes (or_else s (codes "mosh-server")) (or_else s (codes "mosh-server"))
unfolding equal
Denotes-server [] h = Denotes-plain _ _ h
Denotes-server (c ∷ s) h = Denotes-plain c s h

DenoteAll-port : (udp_port : Bytes) → DenoteAll (port_parts udp_port) (port_words udp_port)
DenoteAll-port udp_port = elim (Bool-cases (equal udp_port [])) [
  | inl e ↦ rw e tt
  | inr e ↦ rw e (literal.5, (Denotes-shell_quote udp_port, tt))
]

DenoteAll-remote : (args : List Bytes) → DenoteAll (remote_parts args) (remote_words args)
DenoteAll-remote [] = tt
DenoteAll-remote (a ∷ args) = (literal.6, DenoteAll-map (a ∷ args))

-- A shell reads in the line of `serverCommand` the words asked for: TERM and LANG with their values,
-- the server, its fixed options, the port where one is asked for, and every argument of the remote
-- command, whatever characters these hold; the name of the server is one with no character to quote.
pub sh_words-server_command_line :
    (opts : CommandOptions) (env : Env)
    → contains_any (server_of opts) quoted_chars ≡ false
    → sh_words (server_command_line opts env) ≡ some (command_words opts env)
unfolding server_command_line server_parts server_of
sh_words-server_command_line opts env h =
    join-DenoteAll (server_parts opts env) (command_words opts env) (
      Denotes-prefix (codes "TERM=") (codes "TERM=") (term_of opts env) literal.0,
      (
        Denotes-server opts.server_command h,
        (
          literal.1,
          (
            literal.2,
            (
              literal.3,
              (
                literal.4,
                (
                  Denotes-shell_quote (codes "LANG=" ++ lang_of env),
                  DenoteAll-append (port_parts opts.udp_port) (remote_parts opts.remote_command)
                      (port_words opts.udp_port) (remote_words opts.remote_command)
                      (DenoteAll-port opts.udp_port) (DenoteAll-remote opts.remote_command),
                ),
              ),
            ),
          ),
        ),
      ),
    )
