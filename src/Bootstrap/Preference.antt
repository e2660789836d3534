-- ===== src/Bootstrap/Preference.antt =====
-- internal/bootstrap/hostkey.go: the order of the algorithms that `knownHostKeyAlgorithms` returns.
use gosh.Base.{
  ℕ, ◌<◌, List, [], ◌∷◌, ◌++◌, Bytes, mem, select, ranked, IsSorted, four_ranks-IsSorted,
  ranked-four_ranks, ◌&&◌, if◌then◌else◌, Bool-cases, ◌≡◌, inl, inr, refl, sym, ap, subst, ◌∙◌,
  append_assoc, append-nil, arith, Option, some, err,
}
use gosh.Bootstrap.KnownHosts.{Ssh, PublicKey, Verify, key_error, KnownHosts}
use gosh.Bootstrap.Algorithms.{
  is_cert_algorithm, Groups, no_groups, group_algo, group_algos, concat_groups, prefer,
  candidate_host_key_algorithms, known_host_key_algorithms, recorded_host_key_types,
  preferred_algorithms, types_of,
}

-- Certificates before plain algorithms, and in each half those of recorded types first.
abbrev pub rank : List Bytes → Bytes → ℕ
rank preferred algo =
    if is_cert_algorithm algo && mem algo preferred
    then 0
    else if is_cert_algorithm algo
    then 1
    else if mem algo preferred
    then 2
    else 3

-- Groups with the algorithms of a list behind them.
abbrev added : List Bytes → List Bytes → Groups → Groups
added preferred algos g = record {
  cert_known = g.cert_known ++ ranked (rank preferred) 0 algos;
  cert_rest = g.cert_rest ++ ranked (rank preferred) 1 algos;
  plain_known = g.plain_known ++ ranked (rank preferred) 2 algos;
  plain_rest = g.plain_rest ++ ranked (rank preferred) 3 algos;
}

added-step :
    (preferred : List Bytes) (algo : Bytes) (algos : List Bytes) (g : Groups)
    → added preferred algos (group_algo preferred algo g) ≡ added preferred (algo ∷ algos) g
unfolding select
added-step preferred algo algos g = elim (Bool-cases (is_cert_algorithm algo)) [
  | inl c ↦ elim (Bool-cases (mem algo preferred)) [
    | inl m ↦
        rw (c, m)
          (ap (λ l. record (added preferred algos g) { cert_known = l })
            (append_assoc g.cert_known (algo ∷ []) (ranked (rank preferred) 0 algos)))
    | inr m ↦
        rw (c, m)
          (ap (λ l. record (added preferred algos g) { cert_rest = l })
            (append_assoc g.cert_rest (algo ∷ []) (ranked (rank preferred) 1 algos)))
  ]
  | inr c ↦ elim (Bool-cases (mem algo preferred)) [
    | inl m ↦
        rw (c, m)
          (ap (λ l. record (added preferred algos g) { plain_known = l })
            (append_assoc g.plain_known (algo ∷ []) (ranked (rank preferred) 2 algos)))
    | inr m ↦
        rw (c, m)
          (ap (λ l. record (added preferred algos g) { plain_rest = l })
            (append_assoc g.plain_rest (algo ∷ []) (ranked (rank preferred) 3 algos)))
  ]
]

group_algos-eq :
    (preferred algos : List Bytes) (g : Groups)
    → group_algos preferred algos g ≡ added preferred algos g
unfolding group_algos select
group_algos-eq preferred [] g = λ j. record {
  cert_known = sym (append-nil g.cert_known) j;
  cert_rest = sym (append-nil g.cert_rest) j;
  plain_known = sym (append-nil g.plain_known) j;
  plain_rest = sym (append-nil g.plain_rest) j;
}
group_algos-eq preferred (algo ∷ algos) g =
    group_algos-eq preferred algos (group_algo preferred algo g) ∙ added-step preferred algo algos g

rank-lt : (preferred : List Bytes) (algo : Bytes) → rank preferred algo < 4
rank-lt preferred algo = elim (Bool-cases (is_cert_algorithm algo)) [
  | inl c ↦ elim (Bool-cases (mem algo preferred)) [
    | inl m ↦ rw (c, m) (omega arith)
    | inr m ↦ rw (c, m) (omega arith)
  ]
  | inr c ↦ elim (Bool-cases (mem algo preferred)) [
    | inl m ↦ rw (c, m) (omega arith)
    | inr m ↦ rw (c, m) (omega arith)
  ]
]

-- Where an algorithm is preferred, the candidates are returned sorted by their rank, and those of
-- each rank are the ones of the candidates, in their order.
prefer-sorts :
    (ssh : Ssh) (preferred : List Bytes)
    → ¬ (preferred ≡ [])
    → IsSorted (rank preferred) (prefer ssh preferred)
      × ((r : ℕ)
          → ranked (rank preferred) r (prefer ssh preferred)
            ≡ ranked (rank preferred) r (candidate_host_key_algorithms ssh preferred))
unfolding prefer
prefer-sorts ssh [] d = absurd (d refl)
prefer-sorts ssh (algo ∷ algos) d =
    let preferred = algo ∷ algos in
    let candidates = candidate_host_key_algorithms ssh preferred in
    let grouped = ap concat_groups (group_algos-eq preferred candidates no_groups) in
    (
      subst (IsSorted (rank preferred)) (sym grouped)
          (four_ranks-IsSorted (rank preferred) candidates),
      λ r.
          ap (ranked (rank preferred) r) grouped
          ∙ ranked-four_ranks (rank preferred) (rank-lt preferred) r candidates,
    )

-- Where the content of the file is parsed, and a type recorded for the address has an algorithm, the
-- algorithms returned are the candidates sorted: certificates before plain algorithms, in each half
-- those of recorded types first, and within each of these four groups the candidates' own order.
pub known_host_key_algorithms-sorts :
    (ssh : Ssh) (known : KnownHosts) (unmatchable : Option PublicKey) (file addr : Bytes)
    (verify : Verify) (preferred : List Bytes)
    → known.new file ≡ some verify
    → preferred_algorithms ssh (recorded_host_key_types unmatchable verify addr) ≡ preferred
    → ¬ (preferred ≡ [])
    → IsSorted (rank preferred) (known_host_key_algorithms ssh known unmatchable (some file) addr)
      × ((r : ℕ)
          → ranked
              (rank preferred)
              r
              (known_host_key_algorithms ssh known unmatchable (some file) addr)
            ≡ ranked (rank preferred) r (candidate_host_key_algorithms ssh preferred))
unfolding known_host_key_algorithms
known_host_key_algorithms-sorts ssh known unmatchable file addr verify preferred e p d =
    let run : known_host_key_algorithms ssh known unmatchable (some file) addr
        ≡ prefer ssh preferred =
      rw (e, p) refl in
    let (sorted, same) = prefer-sorts ssh preferred d in
    (
      subst (IsSorted (rank preferred)) (sym run) sorted,
      λ r. ap (ranked (rank preferred) r) run ∙ same r,
    )

known_host_key_algorithms-unknown :
    (ssh : Ssh) (known : KnownHosts) (unmatchable : PublicKey) (file addr : Bytes) (verify : Verify)
    → known.new file ≡ some verify
    → verify addr addr unmatchable ≡ err (key_error [])
    → known_host_key_algorithms ssh known (some unmatchable) (some file) addr ≡ []
unfolding known_host_key_algorithms recorded_host_key_types preferred_algorithms prefer types_of
known_host_key_algorithms-unknown ssh known unmatchable file addr verify e v = rw (e, v) refl
