-- ===== src/Bootstrap/Algorithms.antt =====
-- internal/bootstrap/hostkey.go: `knownHostKeyAlgorithms` and what it calls.
use gosh.Base.{
  ◌-◌, List, [], ◌∷◌, ◌++◌, Bytes, length, drop, equal, mem, Option, none, some, Result, ok, err,
  Bool, not, ltb, ◌&&◌, if◌then◌else◌,
}
use gosh.Base.Text.{codes}
use gosh.Bootstrap.KnownHosts.{
  Ssh, PublicKey, VerifyError, key_error, other_error, Verify, KnownHosts,
}

abbrev cert_algo_suffix : Bytes
cert_algo_suffix = codes "-cert-v01@openssh.com"

-- `strings.HasSuffix`
abbrev has_suffix : Bytes → Bytes → Bool
has_suffix s suffix =
    not (ltb (length s) (length suffix)) && equal (drop (length s - length suffix) s) suffix

unfoldable pub is_cert_algorithm : Bytes → Bool
is_cert_algorithm algo = has_suffix algo cert_algo_suffix

unfoldable pub host_key_algorithms_for : Ssh → Bytes → List Bytes
host_key_algorithms_for ssh key_type =
    if equal key_type ssh.key_algo_rsa
    then ssh.cert_algo_rsa_sha256 ∷ ssh.cert_algo_rsa_sha512 ∷ ssh.cert_algo_rsa
      ∷ ssh.key_algo_rsa_sha256 ∷ ssh.key_algo_rsa_sha512 ∷ ssh.key_algo_rsa ∷ []
    else if equal key_type ssh.key_algo_ed25519
    then ssh.cert_algo_ed25519 ∷ ssh.key_algo_ed25519 ∷ []
    else if equal key_type ssh.key_algo_ecdsa256
    then ssh.cert_algo_ecdsa256 ∷ ssh.key_algo_ecdsa256 ∷ []
    else if equal key_type ssh.key_algo_ecdsa384
    then ssh.cert_algo_ecdsa384 ∷ ssh.key_algo_ecdsa384 ∷ []
    else if equal key_type ssh.key_algo_ecdsa521
    then ssh.cert_algo_ecdsa521 ∷ ssh.key_algo_ecdsa521 ∷ []
    else if equal key_type ssh.insecure_key_algo_dsa
    then ssh.insecure_cert_algo_dsa ∷ ssh.insecure_key_algo_dsa ∷ []
    else []

-- The loop over `keyErr.Want`.
unfoldable pub types_of : List PublicKey → List Bytes → List Bytes
unfolding mem
types_of [] types = types
types_of (want ∷ wants) types =
    types_of wants (if not (mem want.key_type types) then types ++ want.key_type ∷ [] else types)

abbrev wanted_types : Result VerifyError (Unit {0}) → List Bytes
wanted_types (ok done) = []
wanted_types (err (key_error want)) = types_of want []
wanted_types (err other_error) = []

-- `unmatchable` is the key made for the probe; there is none where making it fails.
unfoldable pub recorded_host_key_types : Option PublicKey → Verify → Bytes → List Bytes
unfolding types_of
recorded_host_key_types none verify addr = []
recorded_host_key_types (some unmatchable) verify addr = wanted_types (verify addr addr unmatchable)

-- The keys of the map `preferred`.
unfoldable pub preferred_algorithms : Ssh → List Bytes → List Bytes
unfolding host_key_algorithms_for
preferred_algorithms ssh [] = []
preferred_algorithms ssh (key_type ∷ recorded) =
    host_key_algorithms_for ssh key_type ++ preferred_algorithms ssh recorded

-- The loop that adds weak algorithms to `out`.
unfoldable pub add_preferred : List Bytes → List Bytes → List Bytes → List Bytes
unfolding mem
add_preferred preferred [] out = out
add_preferred preferred (algo ∷ algos) out =
    add_preferred preferred algos (if mem algo preferred then out ++ algo ∷ [] else out)

abbrev pub candidate_host_key_algorithms : Ssh → List Bytes → List Bytes
candidate_host_key_algorithms ssh preferred =
    add_preferred preferred ssh.insecure_host_keys ssh.supported_host_keys

pub record Groups : Type 0 where
  pub cert_known : List Bytes
  pub cert_rest : List Bytes
  pub plain_known : List Bytes
  pub plain_rest : List Bytes

abbrev pub no_groups : Groups
no_groups = record { cert_known = []; cert_rest = []; plain_known = []; plain_rest = [] }

abbrev pub group_algo : List Bytes → Bytes → Groups → Groups
group_algo preferred algo g =
    if is_cert_algorithm algo && mem algo preferred
    then record g { cert_known = g.cert_known ++ algo ∷ [] }
    else if is_cert_algorithm algo
    then record g { cert_rest = g.cert_rest ++ algo ∷ [] }
    else if mem algo preferred
    then record g { plain_known = g.plain_known ++ algo ∷ [] }
    else record g { plain_rest = g.plain_rest ++ algo ∷ [] }

unfoldable pub group_algos : List Bytes → List Bytes → Groups → Groups
unfolding is_cert_algorithm mem
group_algos preferred [] g = g
group_algos preferred (algo ∷ algos) g = group_algos preferred algos (group_algo preferred algo g)

abbrev pub concat_groups : Groups → List Bytes
concat_groups g = g.cert_known ++ (g.cert_rest ++ (g.plain_known ++ g.plain_rest))

-- The candidates in their groups, where the recorded types prefer any algorithm.
unfoldable pub prefer : Ssh → List Bytes → List Bytes
unfolding add_preferred group_algos
prefer ssh [] = []
prefer ssh (algo ∷ algos) =
    concat_groups
      (group_algos (algo ∷ algos) (candidate_host_key_algorithms ssh (algo ∷ algos)) no_groups)

abbrev verified_algorithms : Ssh → Option PublicKey → Option Verify → Bytes → List Bytes
verified_algorithms ssh unmatchable none addr = []
verified_algorithms ssh unmatchable (some verify) addr =
    prefer ssh (preferred_algorithms ssh (recorded_host_key_types unmatchable verify addr))

-- On the content of the file at the path, where it can be read; `none` too for an empty path.
unfoldable pub known_host_key_algorithms :
    Ssh → KnownHosts → Option PublicKey → Option Bytes → Bytes → List Bytes
unfolding recorded_host_key_types preferred_algorithms prefer
known_host_key_algorithms ssh known unmatchable none addr = []
known_host_key_algorithms ssh known unmatchable (some file) addr =
    verified_algorithms ssh unmatchable (known.new file) addr
