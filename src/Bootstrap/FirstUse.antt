-- ===== src/Bootstrap/FirstUse.antt =====
-- internal/bootstrap/hostkey.go: a key that `acceptNew` took is the one that later callbacks demand.
use gosh.Base.{
  ℕ, [], ◌∷◌, ◌++◌, Bytes, equal, equal_refl, Option, none, some, ok, err, Bool, true, false, not,
  if◌then◌else◌, ◌≡◌, ◌≢◌, refl,
}
use gosh.Bootstrap.KnownHosts.{PublicKey, key_error, Verify, KnownHosts}
use gosh.Bootstrap.HostKeys.{
  Os, Files, put_file, verify_failed, append_failed, append_line, Callback, verifying, accepting,
  policy_strict, policy_accept_new, host_key_callback, check_key, accept_new, known_hosts_entry,
}
use gosh.Bootstrap.Lines.{EndsLine}

-- A line of known_hosts: a pattern, the type of the key and its blob in base64.
abbrev pub host_line : (Bytes → Bytes) → Bytes → PublicKey → Bytes
host_line encode pattern key = pattern ++ (b' ' ∷ key.key_type ++ (b' ' ∷ encode key.blob))

-- What the code relies on in the package knownhosts, for the host names and keys that a line can
-- carry. A line behind finished ones is read with them, and counts for the address whose normalized
-- form is its pattern. A check that finds the address unknown, so that its address can be
-- parsed and the key that is offered is not revoked, passes for the line's key from then on, and for
-- another key it is a mismatch that wants the line's key.
pub record IsKnownHosts (known : KnownHosts) (encode : Bytes → Bytes)
    (Fits : Bytes → PublicKey → Type 0) : Type 0 where
  pub later : Bytes → Bytes → PublicKey → Verify
  pub later-new :
      (content hostname : Bytes) (key : PublicKey) (verify : Verify)
      → Fits hostname key
      → EndsLine content
      → known.new content ≡ some verify
      → known.new (content ++ (host_line encode (known.normalize hostname) key ++ 10 ∷ []))
        ≡ some (later content hostname key)
  pub later-same :
      (content hostname from : Bytes) (key : PublicKey) (verify : Verify)
      → Fits hostname key
      → EndsLine content
      → known.new content ≡ some verify
      → verify hostname from key ≡ err (key_error [])
      → later content hostname key hostname from key ≡ ok tt
  pub later-other :
      (content hostname from : Bytes) (key other : PublicKey) (verify : Verify)
      → Fits hostname key
      → EndsLine content
      → known.new content ≡ some verify
      → other.blob ≢ key.blob
      → verify hostname from other ≡ err (key_error [])
      → later content hostname key hostname from other ≡ err (key_error (key ∷ []))

different : equal policy_accept_new policy_strict ≡ false
unfolding equal
different = refl

-- The callbacks that a path with a readable file gives.
module _ (os : Os) (known : KnownHosts) (files : Files) (path content : Bytes) (verify : Verify)
    (p : equal path [] ≡ false) (f : files path ≡ some content) (r : os.reads path ≡ true)
    (n : known.new content ≡ some verify) where
  callback_strict :
      host_key_callback os known files policy_strict path ≡ (files, ok (verifying verify))
  unfolding host_key_callback
  callback_strict =
      rw (equal_refl policy_strict)
        (rw p (rw f (rw f (rw r (rw n (rw (equal_refl policy_strict) refl))))))

  callback_accept_new :
      host_key_callback os known files policy_accept_new path ≡ (files, ok (accepting verify path))
  unfolding host_key_callback
  callback_accept_new =
      rw different
        (rw (equal_refl policy_accept_new) (rw p (rw f (rw f (rw r (rw n (rw different refl)))))))

accept_new-ok :
    (os : Os) (known : KnownHosts) (encode : Bytes → Bytes) (verify : Verify) (files : Files)
    (path content hostname remote : Bytes) (key : PublicKey)
    → verify hostname remote key ≡ err (key_error [])
    → files path ≡ some content
    → (accept_new os known encode verify path files hostname remote key).1 ≡ ok tt
    → (accept_new os known encode verify path files hostname remote key).0
      ≡ put_file files path (content ++ (known_hosts_entry known encode hostname key ++ 10 ∷ []))
unfolding accept_new
accept_new-ok os known encode verify files path content hostname remote key v f =
    let line = known_hosts_entry known encode hostname key ++ 10 ∷ [] in
    rw (v, f) (by_outcome (os.opens path) (os.writes line))
  where
    by_outcome :
        (opens : Bool) (writes : Option ℕ)
        → (if not opens
            then (files, err append_failed)
            else append_line files path content
                (known_hosts_entry known encode hostname key ++ 10 ∷ [])
                writes).1
          ≡ ok tt
        → (if not opens
            then (files, err append_failed)
            else append_line files path content
                (known_hosts_entry known encode hostname key ++ 10 ∷ [])
                writes).0
          ≡ put_file files path
              (content ++ (known_hosts_entry known encode hostname key ++ 10 ∷ []))
    by_outcome false writes a = absurd cc
    by_outcome true none a = refl
    by_outcome true (some n) a = absurd cc

-- A key taken on first use: where accept-new, on a readable file whose last line is finished, accepts
-- a key that a line can carry for a host that the file does not know, then the file left makes strict accept that key for the host,
-- and makes accept-new refuse each key with another blob, wanting the first, and leave the files as they
-- are. That is for checks from any address from which the host would have been unknown before, with
-- the key that is offered then: one that can be parsed, and a key that is not revoked.
pub check_key-first_use :
    (os : Os) (known : KnownHosts) (encode : Bytes → Bytes) (files : Files)
    (Fits : Bytes → PublicKey → Type 0) (path content hostname remote from : Bytes)
    (key other : PublicKey) (verify : Verify)
    → IsKnownHosts known encode Fits
    → Fits hostname key
    → equal path [] ≡ false
    → files path ≡ some content
    → os.reads path ≡ true
    → EndsLine content
    → known.new content ≡ some verify
    → verify hostname remote key ≡ err (key_error [])
    → (check_key os known encode (accepting verify path) files hostname remote key).1 ≡ ok tt
    → verify hostname from key ≡ err (key_error [])
    → verify hostname from other ≡ err (key_error [])
    → other.blob ≢ key.blob
    → let later = (check_key os known encode (accepting verify path) files hostname remote key).0 in
      ((strict : Callback) × (host_key_callback os known later policy_strict path
          ≡ (later, ok strict))
        × (check_key os known encode strict later hostname from key ≡ (later, ok tt)))
      × ((accepts : Callback) × (host_key_callback os known later policy_accept_new path
            ≡ (later, ok accepts))
          × (check_key os known encode accepts later hostname from other
              ≡ (later, err (verify_failed (key_error (key ∷ []))))))
unfolding check_key accept_new
check_key-first_use os known encode files Fits path content hostname remote from key other verify
      law fits p f r ends n v a k o d =
    let content' = content ++ (known_hosts_entry known encode hostname key ++ 10 ∷ []) in
    let put = put_file files path content' in
    let there : put path ≡ some content' = rw (equal_refl path) refl in
    let verify' = law.later content hostname key in
    let n' = law.later-new content hostname key verify fits ends n in
    let same = law.later-same content hostname from key verify fits ends n k in
    let differs = law.later-other content hostname from key other verify fits ends n d o in
    rw (accept_new-ok os known encode verify files path content hostname remote key v f a) (
      (
        verifying verify',
        callback_strict os known put path content' verify' p there r n',
        rw same refl,
      ),
      (
        accepting verify' path,
        callback_accept_new os known put path content' verify' p there r n',
        rw differs refl,
      ),
    )
