-- ===== src/Cmd/Session/Trusted.antt =====
-- cmd/gosh/root.go: the host's key behind a session, by the policy.
use gosh.Base.{
  [], ◌∷◌, ◌++◌, Bytes, equal, equal_refl, Option, none, some, Result, ok, err, true, false, ◌⊎◌,
  inl, inr, ◌≡◌, refl, ap, ◌∙◌, subst,
}
use gosh.Bootstrap.KnownHosts.{PublicKey, VerifyError, key_error, other_error, Verify, KnownHosts}
use gosh.Bootstrap.HostKeys.{
  Os, Files, Callback, ignoring, verifying, accepting, verdict, accept_verdict, check_key,
  accept_new, known_hosts_entry, policy_strict, policy_accept_new, policy_insecure,
}
use gosh.Bootstrap.Made.{IsMade, Checks}
use gosh.Cmd.Target.{known_hosts_path_for_preference}
use gosh.Cmd.Session.{World, RootOptions, known_hosts_path, preference_file}

-- The host at `addr` offers `key`, and the policy takes it: the insecure one takes every key, and prefers no
-- algorithm; the others look it up in the content of the file at `path`, which also gives the
-- preferred algorithms, and a key that the file does not know passes under accept-new only.
pub data IsTrusted (known : KnownHosts) (files : Files) (policy path addr remote : Bytes)
    (key : PublicKey) (preference : Option Bytes) : Type 0 where
  insecure :
      policy ≡ policy_insecure
      → preference ≡ none
      → IsTrusted known files policy path addr remote key preference
  listed :
      (content : Bytes) (verify : Verify)
      → (policy ≡ policy_strict) ⊎ (policy ≡ policy_accept_new)
      → files path ≡ some content
      → known.new content ≡ some verify
      → preference ≡ some content
      → verify addr remote key ≡ ok tt
      → IsTrusted known files policy path addr remote key preference
  accepted :
      (content : Bytes) (verify : Verify)
      → policy ≡ policy_accept_new
      → files path ≡ some content
      → known.new content ≡ some verify
      → preference ≡ some content
      → verify addr remote key ≡ err (key_error [])
      → IsTrusted known files policy path addr remote key preference

-- The preference of the algorithms, in the words of its two cases.
abbrev pub preference_of : World → RootOptions → Files → Option Bytes
preference_of w opts files =
    preference_file w.os files
      (known_hosts_path_for_preference opts.host_key (known_hosts_path w.os opts.known_hosts))

preference-insecure :
    (w : World) (opts : RootOptions) (files : Files)
    → opts.host_key ≡ policy_insecure
    → preference_of w opts files ≡ none
unfolding known_hosts_path_for_preference
preference-insecure w opts files e =
    let empty : equal [] [] ≡ true = equal_refl [] in
    rw (e, equal_refl policy_insecure) (rw empty refl)

preference-checked :
    (w : World) (opts : RootOptions) (files : Files) (content : Bytes)
    → equal opts.host_key policy_insecure ≡ false
    → equal (known_hosts_path w.os opts.known_hosts) [] ≡ false
    → w.os.reads (known_hosts_path w.os opts.known_hosts) ≡ true
    → files (known_hosts_path w.os opts.known_hosts) ≡ some content
    → preference_of w opts files ≡ some content
unfolding known_hosts_path_for_preference
preference-checked w opts files content e given r f = rw (e, given, r) f

strict_not_insecure : equal policy_strict policy_insecure ≡ false
unfolding equal
strict_not_insecure = refl

accept_new_not_insecure : equal policy_accept_new policy_insecure ≡ false
unfolding equal
accept_new_not_insecure = refl

-- Where the callback takes a key, the verifier does, or has no word of it under accept-new.
strict-takes :
    (os : Os) (known : KnownHosts) (encode : Bytes → Bytes) (files : Files) (verify : Verify)
    (addr remote : Bytes) (key : PublicKey)
    → (check_key os known encode (verifying verify) files addr remote key).1 ≡ ok tt
    → verify addr remote key ≡ ok tt
unfolding check_key
strict-takes os known encode files verify addr remote key h = by_verdict (verify addr remote key) h
  where
    by_verdict : (r : Result VerifyError (Unit {0})) → verdict r ≡ ok tt → r ≡ ok tt
    by_verdict (ok tt) h = refl
    by_verdict (err e) h = absurd cc

accept_new-takes :
    (os : Os) (known : KnownHosts) (encode : Bytes → Bytes) (files : Files) (verify : Verify)
    (path addr remote : Bytes) (key : PublicKey)
    → (check_key os known encode (accepting verify path) files addr remote key).1 ≡ ok tt
    → (verify addr remote key ≡ ok tt) ⊎ (verify addr remote key ≡ err (key_error []))
unfolding check_key accept_new
accept_new-takes os known encode files verify path addr remote key h =
    by_verdict (verify addr remote key) h
  where
    by_verdict :
        (r : Result VerifyError (Unit {0}))
        → (accept_verdict os files path (known_hosts_entry known encode addr key ++ 10 ∷ []) r).1
          ≡ ok tt
        → (r ≡ ok tt) ⊎ (r ≡ err (key_error []))
    by_verdict (ok tt) h = inl refl
    by_verdict (err (key_error [])) h = inr refl
    by_verdict (err (key_error (want ∷ wants))) h = absurd cc
    by_verdict (err other_error) h = absurd cc

module _ (w : World) (opts : RootOptions) (encode : Bytes → Bytes) (files : Files)
    (addr remote : Bytes) (key : PublicKey) (callback : Callback)
    (given : equal (known_hosts_path w.os opts.known_hosts) [] ≡ false)
    (takes : (check_key w.os w.known encode callback files addr remote key).1 ≡ ok tt) where
  abbrev path : Bytes
  path = known_hosts_path w.os opts.known_hosts

  abbrev Trusted : Type 0
  Trusted = IsTrusted w.known files opts.host_key path addr remote key (preference_of w opts files)

  made-IsTrusted : IsMade w.os w.known files opts.host_key path callback → Trusted
  made-IsTrusted made = by_policy made.checks
    where
      by_policy : Checks opts.host_key path made.verify callback → Trusted
      by_policy (inl (p, c)) =
          listed made.content made.verify (inl p) made.there made.read
            (preference-checked w opts files made.content
              (ap (λ q. equal q policy_insecure) p ∙ strict_not_insecure) given made.readable
              made.there)
            (strict-takes w.os w.known encode files made.verify addr remote key (
              subst (λ cb. (check_key w.os w.known encode cb files addr remote key).1 ≡ ok tt) c
                takes))
      by_policy (inr (p, c)) =
          let prefers =
            preference-checked w opts files made.content
              (ap (λ q. equal q policy_insecure) p ∙ accept_new_not_insecure) given made.readable
              made.there in
          by_verdict p prefers (
            accept_new-takes w.os w.known encode files made.verify path addr remote key (
              subst (λ cb. (check_key w.os w.known encode cb files addr remote key).1 ≡ ok tt) c
                takes))
        where
          by_verdict :
              opts.host_key ≡ policy_accept_new
              → preference_of w opts files ≡ some made.content
              → (made.verify addr remote key ≡ ok tt)
                ⊎ (made.verify addr remote key ≡ err (key_error []))
              → Trusted
          by_verdict p prefers (inl v) =
              listed made.content made.verify (inr p) made.there made.read prefers v
          by_verdict p prefers (inr v) =
              accepted made.content made.verify p made.there made.read prefers v

  pub callback-IsTrusted :
      ((opts.host_key ≡ policy_insecure) × (callback ≡ ignoring))
        ⊎ IsMade w.os w.known files opts.host_key path callback
      → Trusted
  callback-IsTrusted (inl (p, c)) = insecure p (preference-insecure w opts files p)
  callback-IsTrusted (inr made) = made-IsTrusted made
