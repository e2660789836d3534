-- ===== src/Cmd/Session/Connected.antt =====
-- cmd/gosh/root.go: what the connect command attaches with.
use gosh.Base.{
  [], Bytes, equal, Result, ok, err, true, false, inl, inr, ◌≡◌, refl, sym, ap, ◌∙◌, Bool-cases,
  ok_inj,
}
use gosh.Osc52.Policy.{Policy, PolicyError, parse_policy}
use gosh.Crypto.Key.{Base64, KeyError, parse_base64_key}
use gosh.Cmd.Session.{RootOptions, Attach, ConnectError, no_key, keyed, connect_with, connect}

keyed-ok :
    (addr : Bytes) (clipboard : Policy) (r : Result KeyError Bytes) (a : Attach)
    → keyed addr clipboard r ≡ ok a
    → (a.addr ≡ addr) × (a.clipboard ≡ clipboard) × (r ≡ ok a.key)
keyed-ok addr clipboard (err e) a h = absurd cc
keyed-ok addr clipboard (ok key) a h =
    let same = sym (ok_inj h) in
    (ap (λ a. a.addr) same, ap (λ a. a.clipboard) same, ap ok (sym (ap (λ a. a.key) same)))

-- The connect command attaches with the key of MOSH_KEY and the policy named, and where it does it has
-- taken the variable out of the environment.
pub connect-ok :
    (e : Base64) (join : Bytes → Bytes → Bytes) (opts : RootOptions) (mosh_key host port : Bytes)
    (a : Attach)
    → (connect e join opts mosh_key host port).1 ≡ ok a
    → ((connect e join opts mosh_key host port).0 ≡ [])
      × (a.addr ≡ join host port)
      × (parse_policy opts.clipboard ≡ ok a.clipboard)
      × (parse_base64_key e mosh_key ≡ ok a.key)
unfolding connect
connect-ok e join opts mosh_key host port a h = by_policy (parse_policy opts.clipboard) h
  where
    unset :
        (clipboard : Policy)
        → equal mosh_key [] ≡ true
        → connect_with e join mosh_key host port (ok clipboard) ≡ (mosh_key, err no_key)
    unset clipboard q = rw q refl

    scrubbed :
        (clipboard : Policy)
        → equal mosh_key [] ≡ false
        → connect_with e join mosh_key host port (ok clipboard)
          ≡ ([], keyed (join host port) clipboard (parse_base64_key e mosh_key))
    scrubbed clipboard q = rw q refl

    by_policy :
        (r : Result PolicyError Policy)
        → (connect_with e join mosh_key host port r).1 ≡ ok a
        → ((connect_with e join mosh_key host port r).0 ≡ [])
          × (a.addr ≡ join host port)
          × (r ≡ ok a.clipboard)
          × (parse_base64_key e mosh_key ≡ ok a.key)
    by_policy (err x) h = absurd cc
    by_policy (ok clipboard) h = elim (Bool-cases (equal mosh_key [])) [
      | inl q ↦
          let never : Path (Result ConnectError Attach) (err no_key) (ok a) =
            sym (ap (λ p. p.1) (unset clipboard q)) ∙ h in
          absurd cc
      | inr q ↦
          let (addr, clip, key) =
            keyed-ok (join host port) clipboard (parse_base64_key e mosh_key) a
              (sym (ap (λ p. p.1) (scrubbed clipboard q)) ∙ h) in
          (ap (λ p. p.0) (scrubbed clipboard q), addr, ap ok (sym clip), key)
    ]
