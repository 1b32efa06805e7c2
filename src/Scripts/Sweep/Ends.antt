-- ===== src/Scripts/Sweep/Ends.antt =====
-- How the repeated sweep ends.
use ledger_ops_api.Common.{
  ℕ, ◌+◌, ◌*◌, ◌≤◌, ◌≡◌, ◌⊎◌, suc, zero, List, [], ◌∷◌, Option, some, none, Bool, Bool-cases, false,
  any, find, leb, Result, ok, err, Failure, String, not_found, plain_error, arith, refl, inl, inr,
  All, ap, ◌∙◌,
}
use ledger_ops_api.Database.Tables.{Database, Transaction, TransactionStatus, expired}
use ledger_ops_api.Database.Rows.Keys.{Keyed}
use ledger_ops_api.Transactions.Service.{by_reference}
use ledger_ops_api.Transactions.Expiration.Loop.{
  expire_overdue_pending-ends, expire_overdue_pending-Keyed,
}
use ledger_ops_api.Scripts.Sweep.{
  Rounds, read_statuses, add_status, settle_rounds, settle_expired_batch, expiry_settle_timeout_ms,
  expiry_settle_poll_ms, next_round, after_sweep, is_pending, is_unexpected,
}

-- Each reference names an expired transaction.
abbrev pub AllExpired : List String → List Transaction → Type 0
AllExpired references ts =
    All
      (λ (r : String).
        (t : Transaction) × (find (by_reference r) ts ≡ some t) × (t.status ≡ expired))
      references

neither : (s : TransactionStatus) → is_unexpected s ≡ false → is_pending s ≡ false → s ≡ expired
neither s h k = ground arith

add_status-eq-some :
    (o : Option Transaction) (rest : Option (List TransactionStatus)) {ss : List TransactionStatus}
    → add_status o rest ≡ some ss
    → (t : Transaction) × (ts : List TransactionStatus) × (o ≡ some t)
      × (rest ≡ some ts)
      × (t.status ∷ ts ≡ ss)
add_status-eq-some none rest h = cc
add_status-eq-some (some t) none h = cc
add_status-eq-some (some t) (some ts) h = (t, ts, refl, refl, cc)

read_statuses-AllExpired :
    (references : List String) (ts : List Transaction) {ss : List TransactionStatus}
    → read_statuses references ts ≡ some ss
    → any is_unexpected ss ≡ false
    → any is_pending ss ≡ false
    → AllExpired references ts
unfolding read_statuses
read_statuses-AllExpired [] ts h u p = tt
read_statuses-AllExpired (r ∷ rs) ts {ss} h u p =
    let (t, rest, found, others, is) =
      add_status-eq-some (find (by_reference r) ts) (read_statuses rs ts) h in
    let u' : any is_unexpected (t.status ∷ rest) ≡ false = ap (any is_unexpected) is ∙ u in
    let p' : any is_pending (t.status ∷ rest) ≡ false = ap (any is_pending) is ∙ p in
    (
      (t, found, neither t.status (ground arith) (ground arith)),
      read_statuses-AllExpired rs ts others (ground arith) (ground arith),
    )

-- It returns with the batch expired, or it throws.
abbrev pub Outcome : List String → Option (Result (Unit {0}) × Database) → Type 0
Outcome references o =
    ((d : Database) × (o ≡ some (ok tt, d)) × AllExpired references d.transactions)
    ⊎ ((e : Failure) × (d : Database) × (o ≡ some (err e, d)))

next_round-Outcome :
    (references : List String) (o : Option (List TransactionStatus)) (late : Bool) (d : Database)
    (again : Option (Result (Unit {0}) × Database))
    → read_statuses references d.transactions ≡ o
    → (late ≡ false → Outcome references again)
    → Outcome references (next_round o late d again)
next_round-Outcome references none late d again h k = inr (not_found, d, refl)
next_round-Outcome references (some ss) late d again h k =
    elim (Bool-cases (any is_unexpected ss)) [
      | inl y ↦ rw y (inr (plain_error, d, refl))
      | inr u ↦ elim (Bool-cases (any is_pending ss)) [
        | inr p ↦
            rw (u, p) (inl (d, refl, read_statuses-AllExpired references d.transactions h u p))
        | inl p ↦ elim (Bool-cases late) [
          | inl y ↦ rw (u, p, y) (inr (plain_error, d, refl))
          | inr n ↦ rw (u, p, n) (k n)
        ]
      ]
    ]

after_sweep-Outcome :
    (references : List String) (r : Result ℕ) (d : Database)
    (f : Database → Option (Result (Unit {0}) × Database))
    → Outcome references (f d)
    → Outcome references (after_sweep (some (r, d)) f)
after_sweep-Outcome references (ok n) d f h = h
after_sweep-Outcome references (err e) d f h = inr (e, d, refl)

module _ (rounds : Rounds) (started : ℕ) (references : List String)
    (quiet : (round : ℕ) (d : Database)
      → Keyed d.transactions
      → Keyed (rounds.meanwhile round d).transactions)
    (polls : (round : ℕ) → started + expiry_settle_poll_ms * round ≤ rounds.now round) where
  -- A round, from what the rounds after it come to.
  round-Outcome :
      (fuel round : ℕ) (d : Database)
      → Keyed d.transactions
      → ((x : Database)
          → Keyed x.transactions
          → leb (started + expiry_settle_timeout_ms) (rounds.now round) ≡ false
          → Outcome references (
              settle_rounds fuel rounds
                (started + expiry_settle_timeout_ms)
                (suc round)
                references
                x))
      → Outcome references
          (settle_rounds (suc fuel) rounds (started + expiry_settle_timeout_ms) round references d)
  unfolding settle_rounds
  round-Outcome fuel round d k again =
      let (r, d₁, e) = expire_overdue_pending-ends (rounds.locked round) (rounds.envs round) d k in
      let keyed = expire_overdue_pending-Keyed (rounds.locked round) (rounds.envs round) d k e in
      let x = rounds.meanwhile round d₁ in
      rw e (
        after_sweep-Outcome references r d₁ _ (
          next_round-Outcome references (read_statuses references x.transactions) _ x _ refl
            (again x (quiet round d₁ keyed))))

  settle_rounds-Outcome :
      (fuel round : ℕ) (d : Database)
      → fuel + round ≡ 60
      → Keyed d.transactions
      → Outcome references
          (settle_rounds (suc fuel) rounds (started + expiry_settle_timeout_ms) round references d)
  settle_rounds-Outcome zero round d sum k =
      round-Outcome zero round d k λ x _ n. let p = polls round in absurd (ground arith)
  settle_rounds-Outcome (suc fuel) round d sum k =
      round-Outcome (suc fuel) round d k
        λ x keyed _. settle_rounds-Outcome fuel (suc round) x (omega arith) keyed

-- Where each round ends at least 500 ms after the one before it, and others keep the ids different, the repeated sweep ends within 61
-- rounds: it returns, and then every reference of the batch names an expired transaction, or it throws.
pub settle_expired_batch-ends :
    (rounds : Rounds) (started : ℕ) (references : List String) (d : Database)
    → ((round : ℕ) (x : Database)
        → Keyed x.transactions
        → Keyed (rounds.meanwhile round x).transactions)
    → ((round : ℕ) → started + expiry_settle_poll_ms * round ≤ rounds.now round)
    → Keyed d.transactions
    → Outcome references (settle_expired_batch 61 rounds started references d)
unfolding settle_expired_batch
settle_expired_batch-ends rounds started references d quiet polls k =
    settle_rounds-Outcome rounds started references quiet polls 60 0 d (omega arith) k
