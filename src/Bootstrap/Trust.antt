-- ===== src/Bootstrap/Trust.antt =====
-- internal/bootstrap/agent_other.go: which agents are taken.
use gosh.Base.{
  ℕ, ◌%◌, ◌^◌, List, [], ◌∷◌, Bytes, equal, equal_refl, Option, none, some, All, All-append, Bool,
  true, false, not, if◌then◌else◌, Bool-cases, Option-cases, ==_iff, ◌≡◌, ◌≢◌, ◌⊎◌, inl, inr, refl,
  sym, ap, ◌∙◌,
}
use gosh.Base.Text.{codes}
use gosh.Bootstrap.Agents.{
  System, by_peer, dial_own_agent, dial_agents, conns_of, owned, judged, ssh_auth_sock,
  dotvault_endpoint,
}

owned-eq : (sys : System) (o : Option ℕ) → owned sys o ≡ true → o ≡ some (sys.geteuid % 2 ^ 32)
owned-eq sys none h = absurd cc
owned-eq sys (some uid) h = ap some ((==_iff uid (sys.geteuid % 2 ^ 32)).0 h)

judged-by_peer :
    (sys : System) (o : Option ℕ) {conn : ℕ}
    → (judged by_peer sys o).0 ≡ some conn
    → (o ≡ some conn) × (sys.peer_uid conn ≡ some (sys.geteuid % 2 ^ 32))
judged-by_peer sys none h = absurd cc
judged-by_peer sys (some found) {conn} h =
    let outcome : Bool → Option ℕ × List ℕ =
      λ t. if not t then (none, found ∷ []) else (some found, []) in
    elim (Bool-cases (owned sys (sys.peer_uid found))) [
      | inl e ↦
          let kept : some found ≡ some conn = sym (ap (λ t. (outcome t).0) e) ∙ h in
          (kept, peer_of kept (owned-eq sys (sys.peer_uid found) e))
      | inr e ↦ let refused : none ≡ some conn = sym (ap (λ t. (outcome t).0) e) ∙ h in absurd cc
    ]
  where
    peer_or : Option ℕ → Option ℕ
    peer_or none = none
    peer_or (some c) = sys.peer_uid c

    peer_of :
        some found ≡ some conn
        → sys.peer_uid found ≡ some (sys.geteuid % 2 ^ 32)
        → sys.peer_uid conn ≡ some (sys.geteuid % 2 ^ 32)
    peer_of kept e = sym (ap peer_or kept) ∙ e

-- What a connection offered to the remote host may come from.
abbrev pub IsTrusted : System → ℕ → Type 0
IsTrusted sys conn =
    ((sys.getenv (codes "SSH_AUTH_SOCK") ≢ [])
      × (sys.dial (sys.getenv (codes "SSH_AUTH_SOCK")) ≡ some conn))
    ⊎ (sys.peer_uid conn ≡ some (sys.geteuid % 2 ^ 32))

ssh_auth_sock-IsTrusted : (sys : System) → All (IsTrusted sys) (ssh_auth_sock sys)
ssh_auth_sock-IsTrusted sys = elim (Bool-cases (equal (sys.getenv (codes "SSH_AUTH_SOCK")) [])) [
  | inl e ↦ rw e tt
  | inr e ↦ elim (Option-cases (sys.dial (sys.getenv (codes "SSH_AUTH_SOCK")))) [
    | inl d ↦ rw (e, d) tt
    | inr (conn, d) ↦ rw (e, d) (inl (not_empty e, d), tt)
  ]
]
  where
    clash : true ≡ false → ⊥
    clash h = cc

    not_empty : {s : Bytes} → equal s [] ≡ false → s ≢ []
    not_empty {s} e k = clash (sym (equal_refl []) ∙ sym (ap (λ t. equal t []) k) ∙ e)

dial_own_agent-by_peer :
    (sys : System) (path : Bytes) {conn : ℕ}
    → (dial_own_agent by_peer sys path).0 ≡ some conn
    → (sys.dial path ≡ some conn) × (sys.peer_uid conn ≡ some (sys.geteuid % 2 ^ 32))
unfolding dial_own_agent
dial_own_agent-by_peer sys path h = judged-by_peer sys (sys.dial path) h

-- Where the build asks the kernel for the peer, every agent whose keys are offered to the remote host
-- is the one that SSH_AUTH_SOCK names, or is served by the current user.
pub dial_agents-IsTrusted :
    (goos : Bytes) (sys : System) (dotvault : Bytes)
    → All (IsTrusted sys) (dial_agents by_peer goos sys dotvault)
unfolding dial_agents
dial_agents-IsTrusted goos sys dotvault =
    All-append (IsTrusted sys) (ssh_auth_sock sys) _ (ssh_auth_sock-IsTrusted sys)
      (elim (Bool-cases (equal (dotvault_endpoint goos sys dotvault) [])) [
        | inl e ↦ rw e tt
        | inr e ↦ rw e (
            conns_of-IsTrusted (dial_own_agent by_peer sys (dotvault_endpoint goos sys dotvault)).0
              refl)
      ])
  where
    conns_of-IsTrusted :
        (o : Option ℕ)
        → (dial_own_agent by_peer sys (dotvault_endpoint goos sys dotvault)).0 ≡ o
        → All (IsTrusted sys) (conns_of o)
    conns_of-IsTrusted none h = tt
    conns_of-IsTrusted (some conn) h =
        (inr (dial_own_agent-by_peer sys (dotvault_endpoint goos sys dotvault) h).1, tt)
