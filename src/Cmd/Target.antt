-- ===== src/Cmd/Target.antt =====
-- cmd/gosh/root.go: `splitTarget` and `knownHostsPathForPreference`.
use gosh.Base.{
  ==_refl, ℕ, [], ◌∷◌, ◌++◌, Bytes, equal, Option, none, some, false, ◌==◌, if◌then◌else◌, ◌≡◌, ◌≢◌,
  All, refl, ap, arith,
}
use gosh.Bootstrap.HostKeys.{policy_insecure}

-- The texts before and behind the last byte that is `c`, where there is one.
unfoldable pub split_last : ℕ → Bytes → Option (Bytes × Bytes)
split_last c [] = none
split_last c (b ∷ s) = at_byte (split_last c s)
  where
    at_byte : Option (Bytes × Bytes) → Option (Bytes × Bytes)
    at_byte none = if b == c then some ([], s) else none
    at_byte (some (front, behind)) = some (b ∷ front, behind)

-- USER, USERNAME, and the name of the current user where os/user tells it.
pub record Names : Type 0 where
  pub user : Bytes
  pub username : Bytes
  pub current : Option Bytes

abbrev behind_or : Bytes → Option (Bytes × Bytes) → Bytes
behind_or name none = name
behind_or name (some (domain, user)) = user

abbrev bare : Option Bytes → Bytes
bare none = []
bare (some name) = behind_or name (split_last b'\\' name)

abbrev default_user : Names → Bytes
default_user names =
    if equal names.user []
    then (if equal names.username [] then bare names.current else names.username)
    else names.user

abbrev with_default : Names → Bytes → Option (Bytes × Bytes) → Bytes × Bytes
with_default names target (some (user, host)) = (user, host)
with_default names target none = (default_user names, target)

unfoldable pub split_target : Names → Bytes → Bytes × Bytes
unfolding split_last
split_target names target = with_default names target (split_last b'@' target)

unfoldable pub known_hosts_path_for_preference : Bytes → Bytes → Bytes
known_hosts_path_for_preference policy path = if equal policy policy_insecure then [] else path

split_last-none : (c : ℕ) (s : Bytes) → All (λ b. b ≢ c) s → split_last c s ≡ none
unfolding split_last
split_last-none c [] h = refl
split_last-none c (b ∷ s) (h, hs) =
    let other : (b == c) ≡ false = ground arith in rw (split_last-none c s hs) (rw other refl)

split_last-append :
    (c : ℕ) (front behind : Bytes)
    → All (λ b. b ≢ c) behind
    → split_last c (front ++ c ∷ behind) ≡ some (front, behind)
unfolding split_last
split_last-append c [] behind h = rw (split_last-none c behind h) (rw (==_refl c) refl)
split_last-append c (b ∷ front) behind h = rw (split_last-append c front behind h) refl

-- A target with an at sign is split at the last one, whatever the user's name holds, and one with
-- none is the host.
pub split_target-at :
    (names : Names) (user host : Bytes)
    → All (λ b. b ≢ b'@') host
    → (split_target names (user ++ b'@' ∷ host) ≡ (user, host))
      × ((split_target names host).1 ≡ host)
unfolding split_target
split_target-at names user host h = (
  ap (with_default names (user ++ b'@' ∷ host)) (split_last-append b'@' user host h),
  ap (λ o. (with_default names host o).1) (split_last-none b'@' host h),
)
