-- ===== src/Database/Checks/Meaning.antt =====
-- What the CHECK constraints say of a row.
use ledger_ops_api.Common.{◌≡◌, ◌<◌, true, ◌≤◌, arith}
use ledger_ops_api.Database.Tables.{Transaction, refund, partially_refunded, refunded}
use ledger_ops_api.Database.Checks.{
  fixed_checks, transaction_checks, refund_checks, is_plain_status,
}

-- A row that the constraints accept.
pub record Sound (t : Transaction) : Type 0 where
  pub positive : 0 < t.amount
  pub within : t.refunded_amount ≤ t.amount
  pub refund_plain : t.type ≡ refund → t.refunded_amount ≡ 0
  pub refund_status : t.type ≡ refund → is_plain_status t.status ≡ true
  pub plain : is_plain_status t.status ≡ true → t.refunded_amount ≡ 0
  pub partial :
      t.status ≡ partially_refunded → (0 < t.refunded_amount) × (t.refunded_amount < t.amount)
  pub total_refund : t.status ≡ refunded → t.refunded_amount ≡ t.amount

fixed-positive : (t : Transaction) → fixed_checks t ≡ true → 0 < t.amount
unfolding fixed_checks
fixed-positive t h = ground arith

module _ (t : Transaction) (h : refund_checks t ≡ true) where
  refund_checks-within : t.refunded_amount ≤ t.amount
  unfolding refund_checks
  refund_checks-within = ground arith

  refund_checks-refund_plain : t.type ≡ refund → t.refunded_amount ≡ 0
  unfolding refund_checks
  refund_checks-refund_plain e = ground arith

  refund_checks-refund_status : t.type ≡ refund → is_plain_status t.status ≡ true
  unfolding refund_checks
  refund_checks-refund_status e = ground arith

  refund_checks-plain : is_plain_status t.status ≡ true → t.refunded_amount ≡ 0
  unfolding refund_checks
  refund_checks-plain e = ground arith

  refund_checks-partial :
      t.status ≡ partially_refunded → (0 < t.refunded_amount) × (t.refunded_amount < t.amount)
  unfolding refund_checks
  refund_checks-partial e = ground arith

  refund_checks-total : t.status ≡ refunded → t.refunded_amount ≡ t.amount
  unfolding refund_checks
  refund_checks-total e = ground arith

checks_parts :
    (t : Transaction)
    → transaction_checks t ≡ true
    → (fixed_checks t ≡ true) × (refund_checks t ≡ true)
unfolding transaction_checks
checks_parts t h = ground arith

pub transaction_checks-Sound : (t : Transaction) → transaction_checks t ≡ true → Sound t
transaction_checks-Sound t h =
    let (f, r) = checks_parts t h in
    record {
      positive = fixed-positive t f;
      within = refund_checks-within t r;
      refund_plain = refund_checks-refund_plain t r;
      refund_status = refund_checks-refund_status t r;
      plain = refund_checks-plain t r;
      partial = refund_checks-partial t r;
      total_refund = refund_checks-total t r;
    }
