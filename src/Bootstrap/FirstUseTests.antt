-- ===== src/Bootstrap/FirstUseTests.antt =====
-- Runs of internal/bootstrap: a key that is accepted on first use, and checked from then on.
use gosh.Base.{
  ℕ, [], ◌∷◌, ◌++◌, Bytes, length, equal, equal_refl, equal_iff, ok, err, Bool, true, false, ◌&&◌,
  Bool-cases, ◌≡◌, ◌≢◌, inl, inr, refl, sym, ap, ◌∙◌, arith,
}
use gosh.Base.Text.{codes}
use gosh.Bootstrap.KnownHosts.{PublicKey, key_error}
use gosh.Bootstrap.HostKeys.{
  Files, Callback, accepting, verify_failed, policy_strict, policy_accept_new, host_key_callback,
  check_key, accept_new,
}
use gosh.Bootstrap.FirstUse.{IsKnownHosts, host_line, check_key-first_use}
use gosh.Bootstrap.Tests.{
  os, encode, path, one_file, file_there, other_key, known_key, same_key, verify_one, one_key,
}

same_key_sound : (key : PublicKey) → same_key key known_key ≡ true → key ≡ known_key
same_key_sound key h =
    let (t, b) = both (equal key.key_type known_key.key_type) (equal key.blob known_key.blob) h in
    λ j. record {
      key_type = (equal_iff key.key_type known_key.key_type).0 t j;
      blob = (equal_iff key.blob known_key.blob).0 b j;
    }
  where
    both : (a b : Bool) → (a && b) ≡ true → (a ≡ true) × (b ≡ true)
    both true b h = (refl, h)
    both false b h = absurd cc

abbrev Fits : Bytes → PublicKey → Type 0
Fits hostname key = key ≡ known_key

known_after :
    (b : Bytes)
    → equal b [] ≡ false
    → (hostname from : Bytes) → verify_one b hostname from known_key ≡ ok tt
known_after b e hostname from =
    rw (e, equal_refl known_key.key_type, equal_refl known_key.blob) refl

refused_after :
    (b : Bytes)
    → equal b [] ≡ false
    → (hostname from : Bytes) (other : PublicKey) → other ≢ known_key
    → verify_one b hostname from other ≡ err (key_error (known_key ∷ []))
refused_after b e hostname from other d = elim (Bool-cases (same_key other known_key)) [
  | inl s ↦ absurd (d (same_key_sound other s))
  | inr s ↦ rw (e, s) refl
]

entry_not_empty :
    (content hostname : Bytes) (key : PublicKey)
    → equal (content ++ (host_line encode hostname key ++ 10 ∷ [])) [] ≡ false
unfolding equal
entry_not_empty [] [] key = refl
entry_not_empty [] (c ∷ hostname) key = refl
entry_not_empty (c ∷ content) hostname key = refl

abbrev with_line : Bytes → Bytes → PublicKey → Bytes
with_line content hostname key = content ++ (host_line encode hostname key ++ 10 ∷ [])

one_key-IsKnownHosts : IsKnownHosts one_key encode Fits
one_key-IsKnownHosts = record {
  later = λ content hostname key. verify_one (with_line content hostname key);
  later-new = λ content hostname key verify fits ends n. refl;
  later-same = λ content hostname from key verify fits ends n k.
      ap (verify_one (with_line content hostname key) hostname from) fits
      ∙ known_after (with_line content hostname key) (entry_not_empty content hostname key) hostname
          from;
  later-other = λ content hostname from key other verify fits ends n d o.
      refused_after (with_line content hostname key) (entry_not_empty content hostname key) hostname
        from other (λ s. d (ap (λ q. q.blob) (s ∙ sym fits)))
      ∙ ap (λ q. err (key_error (q ∷ []))) (sym fits);
}

path_not_empty : equal path [] ≡ false
unfolding equal
path_not_empty = refl

unknown : verify_one [] (codes "h") (codes "h") known_key ≡ err (key_error [])
unfolding equal
unknown = refl

accepted :
    (check_key os one_key encode
      (accepting (verify_one []) path)
      (one_file [])
      (codes "h")
      (codes "h")
      known_key).1
    ≡ ok tt
unfolding check_key accept_new equal
accepted = refl

unknown_from : verify_one [] (codes "h") (codes "g") known_key ≡ err (key_error [])
unfolding equal
unknown_from = refl

unknown_other : verify_one [] (codes "h") (codes "g") other_key ≡ err (key_error [])
unfolding equal
unknown_other = refl

different : other_key.blob ≢ known_key.blob
different e =
    let bad : length other_key.blob ≡ length known_key.blob = ap (length {A = ℕ}) e in
    absurd (omega arith)

abbrev left : Files
left =
    (check_key os one_key encode (accepting (verify_one []) path) (one_file []) (codes "h")
      (codes "h") known_key).0

check_key-first_use_example :
    ((strict : Callback) × (host_key_callback os one_key left policy_strict path
        ≡ (left, ok strict))
      × (check_key os one_key encode strict left (codes "h") (codes "g") known_key ≡ (left, ok tt)))
    × ((accepts : Callback) × (host_key_callback os one_key left policy_accept_new path
          ≡ (left, ok accepts))
        × (check_key os one_key encode accepts left (codes "h") (codes "g") other_key
            ≡ (left, err (verify_failed (key_error (known_key ∷ []))))))
check_key-first_use_example =
    check_key-first_use os one_key encode (one_file []) Fits path [] (codes "h") (codes "h")
      (codes "g") known_key other_key (verify_one []) one_key-IsKnownHosts refl path_not_empty
      (file_there []) refl tt refl unknown accepted unknown_from unknown_other different
