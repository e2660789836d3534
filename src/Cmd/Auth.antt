-- ===== src/Cmd/Auth.antt =====
-- cmd/gosh/root.go: `authMethods`. The files, the key parser of x/crypto, the prompts and the terminal
-- are a `Login`; a signer is named by a number.
use gosh.Base.{
  ap, false, true, equal_iff, ◌∙◌, sym, ℕ, List, [], ◌∷◌, ◌++◌, Bytes, equal, Option, none, some,
  Result, ok, err, Bool, if◌then◌else◌, ◌≡◌, ◌≢◌, refl, Bool-cases, Result-cases, inl, inr, ◌⊎◌,
}

-- What parsing a private key gives: a signer, the word that a passphrase is missing, or another error.
pub data Parsed : Type 0 where
  signer : ℕ → Parsed
  passphrase_missing : Parsed
  unreadable : Parsed

pub record Login : Type 0 where
  pub read_file : Bytes → Option Bytes
  pub parse_private_key : Bytes → Parsed
  pub parse_with_passphrase : Bytes → Bytes → Option ℕ
  pub stdin_terminal : Bool
  pub read_password : Option Bytes

pub data AuthError : Type 0 where
  no_identity : AuthError
  not_prompted : AuthError
  bad_identity : Bytes → AuthError
  no_method : AuthError

-- `password` is asked for three times at most.
pub data Method : Type 0 where
  public_keys : ℕ → Method
  agents : List ℕ → Method
  password : ℕ → Method

abbrev unlocked : Bytes → Option ℕ → Result AuthError ℕ
unlocked identity none = err (bad_identity identity)
unlocked identity (some s) = ok s

abbrev prompted : Login → Bytes → Bytes → Option Bytes → Result AuthError ℕ
prompted login identity pem none = err not_prompted
prompted login identity pem (some secret) =
    unlocked identity (login.parse_with_passphrase pem secret)

abbrev parsed : Login → Bytes → Bytes → Parsed → Result AuthError ℕ
parsed login identity pem (signer s) = ok s
parsed login identity pem passphrase_missing =
    if login.stdin_terminal
    then prompted login identity pem login.read_password
    else err (bad_identity identity)
parsed login identity pem unreadable = err (bad_identity identity)

abbrev of_file : Login → Bytes → Option Bytes → Result AuthError ℕ
of_file login identity none = err no_identity
of_file login identity (some pem) = parsed login identity pem (login.parse_private_key pem)

abbrev keys_of : Result AuthError ℕ → Result AuthError (List Method)
keys_of (err e) = err e
keys_of (ok s) = ok (public_keys s ∷ [])

-- The method of an explicit identity file.
unfoldable pub identity_method : Login → Bytes → Result AuthError (List Method)
identity_method login identity =
    if equal identity [] then ok [] else keys_of (of_file login identity (login.read_file identity))

-- `AgentAuth`, on the connections to the agents: none where there is no agent.
unfoldable pub agent_auth : List ℕ → List Method
agent_auth [] = []
agent_auth (conn ∷ conns) = agents (conn ∷ conns) ∷ []

abbrev pub password_method : Login → List Method
password_method login = if login.stdin_terminal then password 3 ∷ [] else []

abbrev some_methods : List Method → Result AuthError (List Method)
some_methods [] = err no_method
some_methods (m ∷ ms) = ok (m ∷ ms)

abbrev with_identity :
    Login → List ℕ → Result AuthError (List Method) → Result AuthError (List Method)
with_identity login conns (err e) = err e
with_identity login conns (ok keys) =
    some_methods (keys ++ (agent_auth conns ++ password_method login))

unfoldable pub auth_methods : Login → Bytes → List ℕ → Result AuthError (List Method)
unfolding identity_method agent_auth
auth_methods login identity conns = with_identity login conns (identity_method login identity)

-- The signer of an identity file: it can be parsed, or is locked and is asked for on the terminal.
pub data IsSigner (login : Login) (identity : Bytes) (s : ℕ) : Type 0 where
  plain :
      (pem : Bytes)
      → login.read_file identity ≡ some pem
      → login.parse_private_key pem ≡ signer s
      → IsSigner login identity s
  locked :
      (pem secret : Bytes)
      → login.read_file identity ≡ some pem
      → login.parse_private_key pem ≡ passphrase_missing
      → login.stdin_terminal ≡ true
      → login.read_password ≡ some secret
      → login.parse_with_passphrase pem secret ≡ some s
      → IsSigner login identity s

prompted-ok :
    (login : Login) (identity pem : Bytes) (s : ℕ) (r : Option Bytes)
    → prompted login identity pem r ≡ ok s
    → (secret : Bytes) × (r ≡ some secret) × (login.parse_with_passphrase pem secret ≡ some s)
prompted-ok login identity pem s none h = absurd cc
prompted-ok login identity pem s (some secret) h =
    (secret, refl, opened (login.parse_with_passphrase pem secret) h)
  where
    opened : (o : Option ℕ) → unlocked identity o ≡ ok s → o ≡ some s
    opened none h = absurd cc
    opened (some n) h = cc

of_file-IsSigner :
    (login : Login) (identity : Bytes) (s : ℕ) (pem : Bytes) (r : Parsed)
    → login.read_file identity ≡ some pem
    → login.parse_private_key pem ≡ r
    → parsed login identity pem r ≡ ok s
    → IsSigner login identity s
of_file-IsSigner login identity s pem (signer n) f e h =
    let same : n ≡ s = cc in plain pem f (e ∙ ap signer same)
of_file-IsSigner login identity s pem unreadable f e h = absurd cc
of_file-IsSigner login identity s pem passphrase_missing f e h =
    elim (Bool-cases login.stdin_terminal) [
      | inl q ↦
          let (secret, typed, opened) =
            prompted-ok login identity pem s login.read_password (sym (rw q refl) ∙ h) in
          locked pem secret f e q typed opened
      | inr q ↦
          let never : Path (Result AuthError ℕ) (err (bad_identity identity)) (ok s) =
            sym (rw q refl) ∙ h in
          absurd cc
    ]

-- The one key of an identity file, or none where no file is named.
pub data IsIdentity (login : Login) (identity : Bytes) (keys : List Method) : Type 0 where
  not_named : identity ≡ [] → keys ≡ [] → IsIdentity login identity keys
  named :
      (s : ℕ)
      → identity ≢ []
      → IsSigner login identity s
      → keys ≡ public_keys s ∷ []
      → IsIdentity login identity keys

keys_of-named :
    (login : Login) (identity : Bytes) (keys : List Method) (o : Option Bytes)
    → login.read_file identity ≡ o
    → identity ≢ []
    → keys_of (of_file login identity o) ≡ ok keys
    → IsIdentity login identity keys
keys_of-named login identity keys none f d h = absurd cc
keys_of-named login identity keys (some pem) f d h =
    elim (Result-cases (parsed login identity pem (login.parse_private_key pem))) [
      | inl (s, e) ↦
          let one : ok (public_keys s ∷ []) ≡ ok keys = sym (ap keys_of e) ∙ h in
          named s d (of_file-IsSigner login identity s pem (login.parse_private_key pem) f refl e)
            (cc)
      | inr (x, e) ↦
          let never : Path (Result AuthError (List Method)) (err x) (ok keys) =
            sym (ap keys_of e) ∙ h in
          absurd cc
    ]

identity_method-IsIdentity :
    (login : Login) (identity : Bytes) (keys : List Method)
    → identity_method login identity ≡ ok keys
    → IsIdentity login identity keys
unfolding identity_method
identity_method-IsIdentity login identity keys h = elim (Bool-cases (equal identity [])) [
  | inl e ↦
      let none_there : ok [] ≡ ok keys = sym (rw e refl) ∙ h in
      not_named ((equal_iff identity []).0 e) (cc)
  | inr e ↦
      keys_of-named login identity keys (login.read_file identity) refl
        (λ q. let empty = (equal_iff identity []).1 q in cc) (sym (rw e refl) ∙ h)
]

-- The agents, where there are some, and the password, where there is a terminal to ask on.
abbrev pub AreAgents : List ℕ → List Method → Type 0
AreAgents conns found = ((conns ≡ []) × (found ≡ [])) ⊎ ((conns ≢ []) × (found ≡ agents conns ∷ []))

abbrev pub IsPassword : Bool → List Method → Type 0
IsPassword terminal found =
    ((terminal ≡ false) × (found ≡ [])) ⊎ ((terminal ≡ true) × (found ≡ password 3 ∷ []))

agent_auth-AreAgents : (conns : List ℕ) → AreAgents conns (agent_auth conns)
unfolding agent_auth
agent_auth-AreAgents [] = inl (refl, refl)
agent_auth-AreAgents (c ∷ conns) = inr (λ e. cc, refl)

password_method-IsPassword :
    (login : Login) → IsPassword login.stdin_terminal (password_method login)
password_method-IsPassword login = elim (Bool-cases login.stdin_terminal) [
  | inl e ↦ rw e (inr (refl, refl))
  | inr e ↦ rw e (inl (refl, refl))
]

some_methods-ok :
    (ms found : List Method) → some_methods ms ≡ ok found → (found ≢ []) × (found ≡ ms)
some_methods-ok [] found e = absurd cc
some_methods-ok (m ∷ ms) found e = let same : m ∷ ms ≡ found = cc in (λ n. cc, sym same)

-- Where there is no error there is a method, and the methods come in one order, each of them once:
-- the key of the identity file, exactly where one is named, with the signer that the file holds or
-- that the passphrase typed opens; the agents, exactly where there are some; and the password, for
-- three tries, exactly where there is a terminal to ask on.
pub auth_methods-IsOrdered :
    (login : Login) (identity : Bytes) (conns : List ℕ) (found : List Method)
    → auth_methods login identity conns ≡ ok found
    → (found ≢ [])
      × (keys : List Method) × (agent : List Method) × (asked : List Method) × (found
          ≡ keys ++ (agent ++ asked))
      × IsIdentity login identity keys
      × AreAgents conns agent
      × IsPassword login.stdin_terminal asked
unfolding auth_methods
auth_methods-IsOrdered login identity conns found h =
    elim (Result-cases (identity_method login identity)) [
      | inl (keys, e) ↦
          let there : some_methods (keys ++ (agent_auth conns ++ password_method login))
              ≡ ok found =
            sym (rw e refl) ∙ h in
          let (some_there, same) =
            some_methods-ok (keys ++ (agent_auth conns ++ password_method login)) found there in
          (
            some_there,
            keys,
            agent_auth conns,
            password_method login,
            same,
            identity_method-IsIdentity login identity keys e,
            agent_auth-AreAgents conns,
            password_method-IsPassword login,
          )
      | inr (x, e) ↦
          let never : Path (Result AuthError (List Method)) (err x) (ok found) =
            sym (rw e refl) ∙ h in
          absurd cc
    ]
