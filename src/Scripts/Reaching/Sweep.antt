-- ===== src/Scripts/Reaching/Sweep.antt =====
-- The repeated sweep of seed-demo.ts, as calls of the service.
use ledger_ops_api.Common.{
  ℕ, suc, zero, List, Option, some, none, Bool, true, false, Bool-cases, inl, inr, Result, ok, err,
  String, any, ◌==◌, ◌+◌,
}
use ledger_ops_api.Database.Tables.{Database, TransactionStatus}
use ledger_ops_api.Database.Sql.{Env}
use ledger_ops_api.System.Steps.{Reach, Reach-trans, here, next, batch_expired}
use ledger_ops_api.Transactions.Expiration.{
  expire_one_batch, after_batch, expire_loop, expire_overdue_pending,
}
use ledger_ops_api.Scripts.Sweep.{
  Rounds, is_unexpected, is_pending, next_round, after_sweep, settle_rounds, settle_expired_batch,
  read_statuses,
}

-- The database that is left, where there is a result at all.
abbrev pub Leaves : {A : Type 0} → Database → Option (Result A × Database) → Type 0
Leaves s none = Unit
Leaves s (some (r, d)) = Reach s d

Leaves-trans :
    {A : Type 0} {s t : Database} (o : Option (Result A × Database))
    → Reach s t
    → Leaves t o
    → Leaves s o
Leaves-trans none r h = tt
Leaves-trans (some (x, d)) r h = Reach-trans r h

after_batch-Leaves :
    (s : Database) (x : Result ℕ × Database) (f : ℕ → Database → Option (Result ℕ × Database))
    → Reach s x.1
    → ((n : ℕ) (d : Database) → Leaves d (f n d))
    → Leaves s (after_batch x f)
after_batch-Leaves s (ok n, d) f r h = Leaves-trans (f n d) r (h n d)
after_batch-Leaves s (err e, d) f r h = r

either-Leaves :
    {A : Type 0} (s : Database) (b : Bool) (x y : Option (Result A × Database))
    → Leaves s x
    → Leaves s y
    → Leaves s (elim b [ true ↦ x | false ↦ y ])
either-Leaves s true x y h k = h
either-Leaves s false x y h k = k

expire_loop-Leaves :
    (fuel : ℕ) (locked : ℕ → Bool) (envs : ℕ → Env) (total : ℕ) (d : Database)
    → Leaves d (expire_loop fuel locked envs total d)
unfolding expire_loop
expire_loop-Leaves zero locked envs total d = tt
expire_loop-Leaves (suc fuel) locked envs total d =
    after_batch-Leaves d (expire_one_batch locked (envs fuel) d) _
      (next here (batch_expired locked (envs fuel)))
      λ n d'.
        either-Leaves d' (n == 0) _ _ here (expire_loop-Leaves fuel locked envs (total + n) d')

next_round-Leaves :
    (o : Option (List TransactionStatus)) (late : Bool) (d : Database)
    (again : Option (Result (Unit {0}) × Database))
    → Leaves d again
    → Leaves d (next_round o late d again)
next_round-Leaves none late d again h = here
next_round-Leaves (some ss) late d again h = elim (Bool-cases (any is_unexpected ss)) [
  | inl y ↦ rw y here
  | inr u ↦ elim (Bool-cases (any is_pending ss)) [
    | inr p ↦ rw (u, p) here
    | inl p ↦ elim (Bool-cases late) [ inl y ↦ rw (u, p, y) here | inr n ↦ rw (u, p, n) h ]
  ]
]

after_sweep-Leaves :
    (s : Database) (o : Option (Result ℕ × Database))
    (f : Database → Option (Result (Unit {0}) × Database))
    → Leaves s o
    → ((d : Database) → Leaves d (f d))
    → Leaves s (after_sweep o f)
after_sweep-Leaves s none f h k = tt
after_sweep-Leaves s (some (ok n, d)) f h k = Leaves-trans (f d) h (k d)
after_sweep-Leaves s (some (err e, d)) f h k = h

module _ (rounds : Rounds)
    (quiet : (round : ℕ) (x : Database) → Reach x (rounds.meanwhile round x)) where
  settle_rounds-Leaves :
      (fuel deadline round : ℕ) (references : List String) (d : Database)
      → Leaves d (settle_rounds fuel rounds deadline round references d)
  unfolding settle_rounds expire_overdue_pending
  settle_rounds-Leaves zero deadline round references d = tt
  settle_rounds-Leaves (suc fuel) deadline round references d =
      after_sweep-Leaves d (expire_overdue_pending (rounds.locked round) (rounds.envs round) d) _
        (expire_loop-Leaves _ (rounds.locked round) (rounds.envs round) 0 d)
        λ x.
          let y = rounds.meanwhile round x in
          Leaves-trans _ (quiet round x) (
            next_round-Leaves (read_statuses references y.transactions) _ y _
              (settle_rounds-Leaves fuel deadline (suc round) references y))

  pub settle_expired_batch-Leaves :
      (fuel started : ℕ) (references : List String) (d : Database)
      → Leaves d (settle_expired_batch fuel rounds started references d)
  unfolding settle_expired_batch
  settle_expired_batch-Leaves fuel started references d = settle_rounds-Leaves fuel _ 0 references d
