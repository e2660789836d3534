-- ===== src/Bootstrap/HostKeys.antt =====
-- internal/bootstrap/hostkey.go: `HostKeyCallback` and `acceptNew`, over the files that they read and
-- change. What the code asks of the system is a parameter.
use gosh.Base.{
  ℕ, List, [], ◌∷◌, ◌++◌, Bytes, take, equal, Option, none, some, Result, ok, err, Bool, not, ◌||◌,
  if◌then◌else◌,
}
use gosh.Base.Text.{codes}
use gosh.Bootstrap.KnownHosts.{PublicKey, VerifyError, key_error, other_error, Verify, KnownHosts}

-- The answers of os and filepath: `writes` has the number of bytes written where a write fails.
pub record Os : Type 0 where
  pub home : Option Bytes
  pub join : List Bytes → Bytes
  pub dir : Bytes → Bytes
  pub makes_dir : Bytes → Bool
  pub creates : Bytes → Bool
  pub reads : Bytes → Bool
  pub opens : Bytes → Bool
  pub writes : Bytes → Option ℕ

-- The files by their paths.
abbrev pub Files : Type 0
Files = Bytes → Option Bytes

abbrev pub put_file : Files → Bytes → Bytes → Files
put_file files path content = λ p. if equal p path then some content else files p

abbrev pub policy_strict : Bytes
policy_strict = codes "strict"

abbrev pub policy_accept_new : Bytes
policy_accept_new = codes "accept-new"

abbrev pub policy_insecure : Bytes
policy_insecure = codes "insecure"

pub data CallbackError : Type 0 where
  unknown_policy : CallbackError
  no_home : CallbackError
  no_known_hosts : CallbackError
  not_created : CallbackError
  bad_known_hosts : CallbackError

pub data CheckError : Type 0 where
  verify_failed : VerifyError → CheckError
  append_failed : CheckError

-- The three callbacks.
pub data Callback : Type 0 where
  ignoring : Callback
  verifying : Verify → Callback
  accepting : Verify → Bytes → Callback

abbrev pub default_known_hosts_path : Os → Option Bytes → Result CallbackError Bytes
default_known_hosts_path os none = err no_home
default_known_hosts_path os (some home) =
    ok (os.join (home ∷ codes ".ssh" ∷ codes "known_hosts" ∷ []))

abbrev pub read_known_hosts : Os → KnownHosts → Bytes → Option Bytes → Option Verify
read_known_hosts os known path none = none
read_known_hosts os known path (some content) = if os.reads path then known.new content else none

abbrev pub callback_for : Bytes → Bytes → Option Verify → Result CallbackError Callback
callback_for policy path none = err bad_known_hosts
callback_for policy path (some verify) =
    if equal policy policy_strict then ok (verifying verify) else ok (accepting verify path)

abbrev pub on_known_hosts :
    Os → KnownHosts → Files → Bytes → Bytes → Files × Result CallbackError Callback
on_known_hosts os known files policy path =
    (files, callback_for policy path (read_known_hosts os known path (files path)))

-- The file is there, or is made under accept-new.
abbrev pub with_file :
    Os → KnownHosts → Files → Bytes → Bytes → Option Bytes → Files × Result CallbackError Callback
with_file os known files policy path (some content) = on_known_hosts os known files policy path
with_file os known files policy path none =
    if equal policy policy_strict
    then (files, err no_known_hosts)
    else if not (os.makes_dir (os.dir path))
    then (files, err not_created)
    else if not (os.creates path)
    then (files, err not_created)
    else on_known_hosts os known (put_file files path []) policy path

abbrev pub with_path :
    Os
    → KnownHosts
    → Files
    → Bytes
    → Result CallbackError Bytes
    → Files × Result CallbackError Callback
with_path os known files policy (ok path) = with_file os known files policy path (files path)
with_path os known files policy (err e) = (files, err e)

unfoldable pub host_key_callback :
    Os → KnownHosts → Files → Bytes → Bytes → Files × Result CallbackError Callback
host_key_callback os known files policy path =
    if equal policy policy_strict || equal policy policy_accept_new
    then with_path os known files policy
        (if equal path [] then default_known_hosts_path os os.home else ok path)
    else if equal policy policy_insecure
    then (files, ok ignoring)
    else (files, err unknown_policy)

-- The line for a host and a key; `encode` is `base64.StdEncoding.EncodeToString`.
abbrev pub known_hosts_entry : KnownHosts → (Bytes → Bytes) → Bytes → PublicKey → Bytes
known_hosts_entry known encode hostname key =
    known.normalize hostname ++ (b' ' ∷ key.key_type ++ (b' ' ∷ encode key.blob))

abbrev pub append_line :
    Files → Bytes → Bytes → Bytes → Option ℕ → Files × Result CheckError (Unit {0})
append_line files path content line none = (put_file files path (content ++ line), ok tt)
append_line files path content line (some n) =
    (put_file files path (content ++ take n line), err append_failed)

-- Opening for append does not make the file.
abbrev append_entry :
    Os → Files → Bytes → Bytes → Option Bytes → Files × Result CheckError (Unit {0})
append_entry os files path line none = (files, err append_failed)
append_entry os files path line (some content) =
    if not (os.opens path)
    then (files, err append_failed)
    else append_line files path content line (os.writes line)

abbrev pub accept_verdict :
    Os
    → Files
    → Bytes
    → Bytes
    → Result VerifyError (Unit {0})
    → Files × Result CheckError (Unit {0})
accept_verdict os files path line (ok done) = (files, ok tt)
accept_verdict os files path line (err (key_error [])) =
    append_entry os files path line (files path)
accept_verdict os files path line (err (key_error (want ∷ wants))) =
    (files, err (verify_failed (key_error (want ∷ wants))))
accept_verdict os files path line (err other_error) = (files, err (verify_failed other_error))

unfoldable pub accept_new :
    Os
    → KnownHosts
    → (Bytes → Bytes)
    → Verify
    → Bytes
    → Files
    → Bytes
    → Bytes
    → PublicKey
    → Files × Result CheckError (Unit {0})
accept_new os known encode verify path files hostname remote key =
    accept_verdict os files path (known_hosts_entry known encode hostname key ++ b'\n' ∷ [])
      (verify hostname remote key)

abbrev pub verdict : Result VerifyError (Unit {0}) → Result CheckError (Unit {0})
verdict (ok done) = ok tt
verdict (err e) = err (verify_failed e)

-- A call of a callback.
unfoldable pub check_key :
    Os
    → KnownHosts
    → (Bytes → Bytes)
    → Callback
    → Files
    → Bytes
    → Bytes
    → PublicKey
    → Files × Result CheckError (Unit {0})
unfolding accept_new
check_key os known encode ignoring files hostname remote key = (files, ok tt)
check_key os known encode (verifying verify) files hostname remote key =
    (files, verdict (verify hostname remote key))
check_key os known encode (accepting verify path) files hostname remote key =
    accept_new os known encode verify path files hostname remote key
