-- ===== src/Bootstrap/Tests.antt =====
-- Runs of internal/bootstrap.
use gosh.Base.{
  ℕ, List, [], ◌∷◌, ◌++◌, Bytes, equal, equal_refl, ranked, IsSorted, none, some, ok, err, Bool,
  true, ◌&&◌, if◌then◌else◌, ◌≡◌, refl, arith,
}
use gosh.Base.Text.{codes}
use gosh.Bootstrap.KnownHosts.{Ssh, PublicKey, key_error, Verify, KnownHosts}
use gosh.Bootstrap.Algorithms.{
  known_host_key_algorithms, preferred_algorithms, recorded_host_key_types,
  candidate_host_key_algorithms,
}
use gosh.Bootstrap.Preference.{rank, known_host_key_algorithms-sorts}
use gosh.Bootstrap.HostKeys.{Os, Files, accept_new, known_hosts_entry}
use gosh.Bootstrap.Lines.{lines, accept_new-lines}

-- Names of algorithms, as short as the tests allow.
abbrev pub ssh : Ssh
ssh = record {
  key_algo_rsa = codes "ssh-rsa";
  key_algo_rsa_sha256 = codes "rsa-sha2-256";
  key_algo_rsa_sha512 = codes "rsa-sha2-512";
  key_algo_ed25519 = codes "ssh-ed25519";
  key_algo_ecdsa256 = codes "nistp256";
  key_algo_ecdsa384 = codes "nistp384";
  key_algo_ecdsa521 = codes "nistp521";
  insecure_key_algo_dsa = codes "ssh-dss";
  cert_algo_rsa = codes "ssh-rsa-cert-v01@openssh.com";
  cert_algo_rsa_sha256 = codes "rsa-sha2-256-cert-v01@openssh.com";
  cert_algo_rsa_sha512 = codes "rsa-sha2-512-cert-v01@openssh.com";
  cert_algo_ed25519 = codes "ssh-ed25519-cert-v01@openssh.com";
  cert_algo_ecdsa256 = codes "nistp256-cert-v01@openssh.com";
  cert_algo_ecdsa384 = codes "nistp384-cert-v01@openssh.com";
  cert_algo_ecdsa521 = codes "nistp521-cert-v01@openssh.com";
  insecure_cert_algo_dsa = codes "ssh-dss-cert-v01@openssh.com";
  supported_host_keys =
      codes "rsa-sha2-256-cert-v01@openssh.com"
      ∷ codes "ssh-ed25519-cert-v01@openssh.com"
      ∷ codes "rsa-sha2-256"
      ∷ codes "ssh-ed25519"
      ∷ [];
  insecure_host_keys = codes "ssh-rsa" ∷ codes "ssh-dss" ∷ [];
}

abbrev pub known_key : PublicKey
known_key = record { key_type = codes "ssh-ed25519"; blob = 1 ∷ 2 ∷ 3 ∷ [] }

abbrev pub other_key : PublicKey
other_key = record { key_type = codes "ssh-ed25519"; blob = 4 ∷ [] }

abbrev pub same_key : PublicKey → PublicKey → Bool
same_key a b = equal a.key_type b.key_type && equal a.blob b.blob

-- A verifier that knows one key for every host, once its file is not empty.
abbrev pub verify_one : Bytes → Verify
verify_one content = λ hostname remote key.
    if equal content []
    then err (key_error [])
    else if same_key key known_key
    then ok tt
    else err (key_error (known_key ∷ []))

abbrev pub one_key : KnownHosts
one_key = record { new = λ content. some (verify_one content); normalize = λ hostname. hostname }

abbrev preferred : List Bytes
preferred = codes "ssh-ed25519-cert-v01@openssh.com" ∷ codes "ssh-ed25519" ∷ []

preferred_lem :
    preferred_algorithms ssh
      (recorded_host_key_types (some other_key) (verify_one (b'x' ∷ [])) (codes "host:22"))
    ≡ preferred
unfolding preferred_algorithms recorded_host_key_types equal
preferred_lem = refl

known_host_key_algorithms-sorts_example :
    IsSorted
      (rank preferred)
      (known_host_key_algorithms ssh one_key (some other_key) (some (b'x' ∷ [])) (codes "host:22"))
    × ((r : ℕ)
        → ranked (rank preferred) r (
            known_host_key_algorithms ssh one_key
              (some other_key)
              (some (b'x' ∷ []))
              (codes "host:22"))
          ≡ ranked (rank preferred) r (candidate_host_key_algorithms ssh preferred))
known_host_key_algorithms-sorts_example =
    known_host_key_algorithms-sorts ssh one_key (some other_key) (b'x' ∷ []) (codes "host:22")
      (verify_one (b'x' ∷ [])) preferred refl preferred_lem (λ e. ground arith)

test_order :
    known_host_key_algorithms ssh one_key (some other_key) (some (b'x' ∷ [])) (codes "host:22")
    ≡ codes "ssh-ed25519-cert-v01@openssh.com"
      ∷ codes "rsa-sha2-256-cert-v01@openssh.com"
      ∷ codes "ssh-ed25519"
      ∷ codes "rsa-sha2-256"
      ∷ []
unfolding known_host_key_algorithms equal
test_order = refl

-- A system on which every call succeeds.
abbrev pub os : Os
os = record {
  home = some (codes "/home/me");
  join = λ parts. codes "/home/me/.ssh/known_hosts";
  dir = λ path. codes "/home/me/.ssh";
  makes_dir = λ path. true;
  creates = λ path. true;
  reads = λ path. true;
  opens = λ path. true;
  writes = λ line. none;
}

abbrev pub encode : Bytes → Bytes
encode blob = codes "QUJD"

abbrev pub path : Bytes
path = codes "kh"

abbrev pub one_file : Bytes → Files
one_file content = λ p. if equal p path then some content else none

pub file_there : (content : Bytes) → one_file content path ≡ some content
file_there content = rw (equal_refl path) refl

-- A file with an unfinished last line gets the entry behind it in the same line.
accept_new-lines_example :
    ((accept_new os one_key encode
        (λ hostname remote key. err (key_error []))
        path
        (one_file (codes "a b c\nd e"))
        (codes "h")
        (codes "h")
        known_key).1
      ≡ ok tt)
    × ((content : Bytes) × ((accept_new os one_key encode
              (λ hostname remote key. err (key_error []))
              path
              (one_file (codes "a b c\nd e"))
              (codes "h")
              (codes "h")
              known_key).0
            path
          ≡ some content)
        × (lines content
            ≡ lines (codes "a b c\n")
              ++ (codes "d e" ++ known_hosts_entry one_key encode (codes "h") known_key) ∷ []))
accept_new-lines_example =
    accept_new-lines os one_key encode (λ hostname remote key. err (key_error []))
      (one_file (codes "a b c\nd e")) path (codes "a b c\n") (codes "d e") (codes "h") (codes "h")
      known_key refl (file_there (codes "a b c\nd e")) refl (ground arith) (ground arith) refl refl

test_merged :
    lines (
      codes "a b c\n"
      ++ (codes "d e" ++ (known_hosts_entry one_key encode (codes "h") known_key ++ 10 ∷ [])))
    ≡ codes "a b c" ∷ codes "d eh ssh-ed25519 QUJD" ∷ []
unfolding lines
test_merged = refl
