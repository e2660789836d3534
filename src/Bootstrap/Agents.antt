-- ===== src/Bootstrap/Agents.antt =====
-- internal/bootstrap: dotvault.go, agent_other.go, agent_windows.go, the agentpeer files and the
-- agents in bootstrap.go. Environment, sockets, pipes and their peers are parameters.
use gosh.Base.{
  ℕ, ◌%◌, ◌^◌, List, [], ◌∷◌, ◌++◌, Bytes, equal, Option, none, some, Bool, true, false, not, ◌==◌,
  ◌||◌, if◌then◌else◌,
}
use gosh.Base.Text.{codes}

-- What stat tells of a path: whether it is a socket, and its owner where that is known.
pub record FileInfo : Type 0 where
  pub is_socket : Bool
  pub owner : Option ℕ

-- A connection is named by a number; its peer's user is what the kernel tells.
pub record System : Type 0 where
  pub getenv : Bytes → Bytes
  pub home : Option Bytes
  pub join : List Bytes → Bytes
  pub dial : Bytes → Option ℕ
  pub dial_pipe : Bytes → Option ℕ
  pub peer_uid : ℕ → Option ℕ
  pub lstat : Bytes → Option FileInfo
  pub geteuid : ℕ
  pub signers : ℕ → Option (List Bytes)

-- Whether the build asks the kernel for the peer, as on Linux and macOS, or can look at the path only.
pub data Check : Type 0 where
  by_peer : Check
  by_path : Check

abbrev dotvault_auto : Bytes
dotvault_auto = codes "auto"

abbrev dotvault_off : Bytes
dotvault_off = codes "off"

abbrev dotvault_agent_pipe : Bytes
dotvault_agent_pipe = codes "\\\\.\\pipe\\dotvault-agent"

abbrev openssh_agent_pipe : Bytes
openssh_agent_pipe = codes "\\\\.\\pipe\\openssh-ssh-agent"

unfoldable pub dotvault_agent_socket : Bytes → System → Bytes → Bytes
dotvault_agent_socket goos sys home =
    if not (equal (sys.getenv (codes "XDG_RUNTIME_DIR")) [])
    then sys.join
        (sys.getenv (codes "XDG_RUNTIME_DIR") ∷ codes "dotvault" ∷ codes "agent.sock" ∷ [])
    else if equal goos (codes "darwin")
    then (if equal home []
        then []
        else sys.join
            (home ∷ codes "Library" ∷ codes "Caches" ∷ codes "dotvault" ∷ codes "agent.sock" ∷ []))
    else if equal goos (codes "windows")
    then []
    else if equal home []
    then []
    else sys.join (home ∷ codes ".cache" ∷ codes "dotvault" ∷ codes "agent.sock" ∷ [])

unfoldable pub resolve_dotvault_endpoint : Bytes → Bytes → Bytes
resolve_dotvault_endpoint setting auto_default =
    if equal setting dotvault_off
    then []
    else if equal setting dotvault_auto || equal setting []
    then auto_default
    else setting

abbrev home_dir : Option Bytes → Bytes
home_dir none = []
home_dir (some home) = home

abbrev pub is_current_user : System → ℕ → Bool
is_current_user sys uid = uid == sys.geteuid % 2 ^ 32

abbrev pub owned : System → Option ℕ → Bool
owned sys none = false
owned sys (some uid) = is_current_user sys uid

abbrev trusted_file : System → Option FileInfo → Bool
trusted_file sys none = false
trusted_file sys (some st) = if not st.is_socket then false else owned sys st.owner

abbrev pub agent_path_trusted : Check → System → Bytes → Bool
agent_path_trusted by_peer sys path = true
agent_path_trusted by_path sys path = trusted_file sys (sys.lstat path)

abbrev pub agent_peer_trusted : Check → System → ℕ → Bool
agent_peer_trusted by_peer sys conn = owned sys (sys.peer_uid conn)
agent_peer_trusted by_path sys conn = true

-- The connection kept, and those closed.
abbrev pub judged : Check → System → Option ℕ → Option ℕ × List ℕ
judged check sys none = (none, [])
judged check sys (some conn) =
    if not (agent_peer_trusted check sys conn) then (none, conn ∷ []) else (some conn, [])

unfoldable pub dial_own_agent : Check → System → Bytes → Option ℕ × List ℕ
dial_own_agent check sys path =
    if not (agent_path_trusted check sys path) then (none, []) else judged check sys (sys.dial path)

abbrev pub conns_of : Option ℕ → List ℕ
conns_of none = []
conns_of (some conn) = conn ∷ []

abbrev pub ssh_auth_sock : System → List ℕ
ssh_auth_sock sys =
    if equal (sys.getenv (codes "SSH_AUTH_SOCK")) []
    then []
    else conns_of (sys.dial (sys.getenv (codes "SSH_AUTH_SOCK")))

abbrev pub dotvault_endpoint : Bytes → System → Bytes → Bytes
dotvault_endpoint goos sys dotvault =
    resolve_dotvault_endpoint dotvault (dotvault_agent_socket goos sys (home_dir sys.home))

unfoldable pub dial_agents : Check → Bytes → System → Bytes → List ℕ
unfolding dial_own_agent
dial_agents check goos sys dotvault =
    ssh_auth_sock sys
    ++ (if equal (dotvault_endpoint goos sys dotvault) []
        then []
        else conns_of (dial_own_agent check sys (dotvault_endpoint goos sys dotvault)).0)

-- On Windows: the pipes are dialled without a check of their servers.
unfoldable pub dial_agents_windows : System → Bytes → List ℕ
unfolding resolve_dotvault_endpoint
dial_agents_windows sys dotvault =
    ssh_auth_sock sys
    ++ ((if equal (resolve_dotvault_endpoint dotvault dotvault_agent_pipe) []
          then []
          else conns_of (sys.dial_pipe (resolve_dotvault_endpoint dotvault dotvault_agent_pipe)))
        ++ conns_of (sys.dial_pipe openssh_agent_pipe))

abbrev signers_or_none : Option (List Bytes) → List Bytes
signers_or_none none = []
signers_or_none (some s) = s

-- The callback of `agentSigners`: its loop over the clients.
unfoldable pub agent_signers : System → List ℕ → List Bytes
agent_signers sys [] = []
agent_signers sys (conn ∷ conns) = signers_or_none (sys.signers conn) ++ agent_signers sys conns
