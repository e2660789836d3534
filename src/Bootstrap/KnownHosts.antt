-- ===== src/Bootstrap/KnownHosts.antt =====
-- What internal/bootstrap takes from golang.org/x/crypto: the names of the host key algorithms, and
-- the verifier over a known_hosts file.
use gosh.Base.{List, Bytes, Option, Result}

-- The algorithm names of x/crypto, and its lists of supported and of insecure ones.
pub record Ssh : Type 0 where
  pub key_algo_rsa : Bytes
  pub key_algo_rsa_sha256 : Bytes
  pub key_algo_rsa_sha512 : Bytes
  pub key_algo_ed25519 : Bytes
  pub key_algo_ecdsa256 : Bytes
  pub key_algo_ecdsa384 : Bytes
  pub key_algo_ecdsa521 : Bytes
  pub insecure_key_algo_dsa : Bytes
  pub cert_algo_rsa : Bytes
  pub cert_algo_rsa_sha256 : Bytes
  pub cert_algo_rsa_sha512 : Bytes
  pub cert_algo_ed25519 : Bytes
  pub cert_algo_ecdsa256 : Bytes
  pub cert_algo_ecdsa384 : Bytes
  pub cert_algo_ecdsa521 : Bytes
  pub insecure_cert_algo_dsa : Bytes
  pub supported_host_keys : List Bytes
  pub insecure_host_keys : List Bytes

pub record PublicKey : Type 0 where
  pub key_type : Bytes
  pub blob : Bytes

-- The error of a verifier: a `KeyError` with the keys it wants, or another.
pub data VerifyError : Type 0 where
  key_error : List PublicKey → VerifyError
  other_error : VerifyError

-- An `ssh.HostKeyCallback` that changes nothing, on a host name, an address and a key.
abbrev pub Verify : Type 0
Verify = Bytes → Bytes → PublicKey → Result VerifyError (Unit {0})

-- The package knownhosts: `New` on the content of a file, and `Normalize`.
pub record KnownHosts : Type 0 where
  pub new : Bytes → Option Verify
  pub normalize : Bytes → Bytes
