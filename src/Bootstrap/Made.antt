-- ===== src/Bootstrap/Made.antt =====
-- internal/bootstrap/hostkey.go: what stands behind a callback that `HostKeyCallback` has made.
use gosh.Base.{
  [], Bytes, equal, equal_iff, Option, none, some, Result, ok, err, Bool, true, false, not, ◌||◌,
  ◌⊎◌, if◌then◌else◌, Bool-cases, inl, inr, ◌≡◌, refl, sym, ap, subst, ◌∙◌, ok_inj,
}
use gosh.Bootstrap.KnownHosts.{Verify, KnownHosts}
use gosh.Bootstrap.HostKeys.{
  Os, Files, put_file, Callback, CallbackError, ignoring, verifying, accepting, policy_strict,
  policy_accept_new, policy_insecure, read_known_hosts, callback_for, on_known_hosts, with_file,
  with_path, default_known_hosts_path, host_key_callback,
}

-- The callback of a policy that checks, over a verifier.
abbrev pub Checks : Bytes → Bytes → Verify → Callback → Type 0
Checks policy path verify cb =
    ((policy ≡ policy_strict) × (cb ≡ verifying verify))
    ⊎ ((policy ≡ policy_accept_new) × (cb ≡ accepting verify path))

-- It checks with the file at `path`, as the files are left.
pub record IsMade (os : Os) (known : KnownHosts) (files : Files) (policy path : Bytes)
    (cb : Callback) : Type 0 where
  pub content : Bytes
  pub verify : Verify
  pub there : files path ≡ some content
  pub readable : os.reads path ≡ true
  pub read : known.new content ≡ some verify
  pub checks : Checks policy path verify cb

abbrev IsChecking : Bytes → Type 0
IsChecking policy = (policy ≡ policy_strict) ⊎ (policy ≡ policy_accept_new)

callback_for-Checks :
    (policy path : Bytes) (verify : Verify) (cb : Callback)
    → IsChecking policy
    → callback_for policy path (some verify) ≡ ok cb
    → Checks policy path verify cb
callback_for-Checks policy path verify cb p h = elim (Bool-cases (equal policy policy_strict)) [
  | inl e ↦
      let made : ok (verifying verify) ≡ ok cb = sym (rw e refl) ∙ h in
      inl ((equal_iff policy policy_strict).0 e, sym (ok_inj made))
  | inr e ↦
      let made : ok (accepting verify path) ≡ ok cb = sym (rw e refl) ∙ h in
      inr (other p e, sym (ok_inj made))
]
  where
    other : IsChecking policy → equal policy policy_strict ≡ false → policy ≡ policy_accept_new
    other (inl s) e = let same = (equal_iff policy policy_strict).1 s in absurd cc
    other (inr a) e = a

module _ (os : Os) (known : KnownHosts) (policy path : Bytes) (cb : Callback)
    (p : IsChecking policy) where
  by_verify :
      (files : Files) (content : Bytes) (v : Option Verify)
      → files path ≡ some content
      → os.reads path ≡ true
      → known.new content ≡ v
      → callback_for policy path v ≡ ok cb
      → IsMade os known files policy path cb
  by_verify files content none f r n h = absurd cc
  by_verify files content (some verify) f r n h = record {
    content = content;
    verify = verify;
    there = f;
    readable = r;
    read = n;
    checks = callback_for-Checks policy path verify cb p h;
  }

  by_content :
      (files : Files) (o : Option Bytes)
      → files path ≡ o
      → callback_for policy path (read_known_hosts os known path o) ≡ ok cb
      → IsMade os known files policy path cb
  by_content files none f h = absurd cc
  by_content files (some content) f h = elim (Bool-cases (os.reads path)) [
    | inl r ↦
        by_verify files content (known.new content) f r refl
          (ap (λ v. callback_for policy path (if v then known.new content else none)) (sym r) ∙ h)
    | inr r ↦
        let never : Path (Result CallbackError Callback)
            (err gosh.Bootstrap.HostKeys.bad_known_hosts) (ok cb) =
          ap (λ v. callback_for policy path (if v then known.new content else none)) (sym r) ∙ h in
        absurd cc
  ]

  on_known_hosts-IsMade :
      (files files' : Files)
      → on_known_hosts os known files policy path ≡ (files', ok cb)
      → IsMade os known files' policy path cb
  on_known_hosts-IsMade files files' h =
      subst (λ fs. IsMade os known fs policy path cb) (ap (λ r. r.0) h)
        (by_content files (files path) refl (ap (λ r. r.1) h))

  unless_err :
      (b : Bool) (x : CallbackError) (files files' : Files)
      (r : Files × Result CallbackError Callback)
      → (if b then (files, err x) else r) ≡ (files', ok cb)
      → r ≡ (files', ok cb)
  unless_err true x files files' r h =
      let never : Path (Result CallbackError Callback) (err x) (ok cb) = ap (λ q. q.1) h in
      absurd cc
  unless_err false x files files' r h = h

  with_file-IsMade :
      (files files' : Files) (o : Option Bytes)
      → with_file os known files policy path o ≡ (files', ok cb)
      → IsMade os known files' policy path cb
  with_file-IsMade files files' (some content) h = on_known_hosts-IsMade files files' h
  with_file-IsMade files files' none h = on_known_hosts-IsMade (put_file files path []) files' (
      unless_err (not (os.creates path)) _ files files' _ (
        unless_err (not (os.makes_dir (os.dir path))) _ files files' _
          (unless_err (equal policy policy_strict) _ files files' _ h)))

-- The insecure policy makes the callback that ignores the key, and each other one a callback that
-- checks.
pub host_key_callback-IsMade :
    (os : Os) (known : KnownHosts) (files files' : Files) (policy path : Bytes) (cb : Callback)
    → equal path [] ≡ false
    → host_key_callback os known files policy path ≡ (files', ok cb)
    → ((policy ≡ policy_insecure) × (cb ≡ ignoring)) ⊎ IsMade os known files' policy path cb
unfolding host_key_callback
host_key_callback-IsMade os known files files' policy path cb given h =
    elim (Bool-cases (equal policy policy_strict || equal policy policy_accept_new)) [
      | inl e ↦
          let at_path : with_file os known files policy path (files path) ≡ (files', ok cb) =
            sym (rw (e, given) refl) ∙ h in
          inr (
            with_file-IsMade os known policy path cb (checking e) files files' (files path) at_path)
      | inr e ↦ elim (Bool-cases (equal policy policy_insecure)) [
        | inl i ↦
            let made : Path (Files × Result CallbackError Callback) (files, ok ignoring)
                (files', ok cb) =
              sym (rw (e, i) refl) ∙ h in
            inl ((equal_iff policy policy_insecure).0 i, sym (ok_inj (ap (λ r. r.1) made)))
        | inr i ↦
            let never : Path (Files × Result CallbackError Callback)
                (files, err gosh.Bootstrap.HostKeys.unknown_policy) (files', ok cb) =
              sym (rw (e, i) refl) ∙ h in
            let no : Path (Result CallbackError Callback)
                (err gosh.Bootstrap.HostKeys.unknown_policy) (ok cb) =
              ap (λ r. r.1) never in
            absurd cc
      ]
    ]
  where
    checking :
        (equal policy policy_strict || equal policy policy_accept_new) ≡ true → IsChecking policy
    checking e = elim (Bool-cases (equal policy policy_strict)) [
      | inl s ↦ inl ((equal_iff policy policy_strict).0 s)
      | inr s ↦
          let a : equal policy policy_accept_new ≡ true = sym (rw s refl) ∙ e in
          inr ((equal_iff policy policy_accept_new).0 a)
    ]
