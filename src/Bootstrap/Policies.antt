-- ===== src/Bootstrap/Policies.antt =====
-- internal/bootstrap/hostkey.go: which policies check host keys.
use gosh.Base.{
  Bytes, equal, equal_refl, equal_iff, Option, none, some, Result, ok, err, Bool, true, false, ◌||◌,
  if◌then◌else◌, Bool-cases, ◌≡◌, ◌↔◌, inl, inr, refl, sym, subst,
}
use gosh.Bootstrap.KnownHosts.{Verify, KnownHosts}
use gosh.Bootstrap.HostKeys.{
  Os, Files, CallbackError, unknown_policy, Callback, ignoring, verifying, accepting, policy_strict,
  policy_accept_new, policy_insecure, host_key_callback, with_path, with_file, callback_for,
}

abbrev Checks : Result CallbackError Callback → Type 0
Checks (ok ignoring) = ⊥
Checks (ok (verifying verify)) = Unit {0}
Checks (ok (accepting verify path)) = Unit {0}
Checks (err e) = Unit {0}

callback_for-Checks :
    (policy path : Bytes) (v : Option Verify) → Checks (callback_for policy path v)
callback_for-Checks policy path none = tt
callback_for-Checks policy path (some verify) = by_test (equal policy policy_strict)
  where
    by_test : (t : Bool) → Checks (if t then ok (verifying verify) else ok (accepting verify path))
    by_test true = tt
    by_test false = tt

with_file-Checks :
    (os : Os) (known : KnownHosts) (files : Files) (policy path : Bytes) (f : Option Bytes)
    → Checks (with_file os known files policy path f).1
with_file-Checks os known files policy path (some content) = callback_for-Checks policy path _
with_file-Checks os known files policy path none = elim (Bool-cases (equal policy policy_strict)) [
  | inl e ↦ rw e tt
  | inr e ↦ elim (Bool-cases (os.makes_dir (os.dir path))) [
    | inl m ↦ elim (Bool-cases (os.creates path)) [
      | inl c ↦ rw (e, m, c) (callback_for-Checks policy path _)
      | inr c ↦ rw (e, m, c) tt
    ]
    | inr m ↦ rw (e, m) tt
  ]
]

with_path-Checks :
    (os : Os) (known : KnownHosts) (files : Files) (policy : Bytes) (r : Result CallbackError Bytes)
    → Checks (with_path os known files policy r).1
with_path-Checks os known files policy (ok path) =
    with_file-Checks os known files policy path (files path)
with_path-Checks os known files policy (err e) = tt

insecure-apart :
    (equal policy_insecure policy_strict ≡ false)
    × (equal policy_insecure policy_accept_new ≡ false)
unfolding equal
insecure-apart = (refl, refl)

by_tests :
    (files : Files) (r : Files × Result CallbackError Callback) (a b : Bool)
    → Checks r.1
    → (if a then r else if b then (files, ok ignoring) else (files, err unknown_policy)).1
      ≡ ok ignoring
    → b ≡ true
by_tests files r true b c h = absurd (subst Checks h c)
by_tests files r false true c h = refl
by_tests files r false false c h = absurd cc

-- The callback checks nothing exactly under the policy named insecure: a misspelled name, a missing
-- file or a failing call of the system never gives it.
pub host_key_callback-ignoring :
    (os : Os) (known : KnownHosts) (files : Files) (policy path : Bytes)
    → ((host_key_callback os known files policy path).1 ≡ ok ignoring) ↔ (policy ≡ policy_insecure)
unfolding host_key_callback
host_key_callback-ignoring os known files policy path = (
  λ h. (equal_iff policy policy_insecure).0 (
      by_tests files _ (equal policy policy_strict || equal policy policy_accept_new)
        (equal policy policy_insecure) (with_path-Checks os known files policy _) h),
  λ h.
      subst (λ p. (host_key_callback os known files p path).1 ≡ ok ignoring) (sym h)
        (rw (insecure-apart.0, insecure-apart.1, equal_refl policy_insecure) refl),
)
