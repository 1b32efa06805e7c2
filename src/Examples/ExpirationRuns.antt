-- ===== src/Examples/ExpirationRuns.antt =====
-- The expiration and the listing at concrete inputs.
use ledger_ops_api.Database.Tables.{Database, pending, Transaction, succeeded}
use ledger_ops_api.Database.Sql.{Env, ◌>>=◌}
use ledger_ops_api.Common.{
  ℕ, ◌≡◌, Result, ◌<◌, Bool, length, some, none, false, arith, ◌≤◌, sort_by, ◌∷◌, insert_by, [],
  All, refl, true, find, if◌then◌else◌, any, map_option, str_eq, ok,
}
use ledger_ops_api.Transactions.Expiration.{
  expire_one_batch, expire_overdue_pending, pending_count, batch_body, overdue_batch, expire_loop,
  expire_rows, takeable, expiration_batch_size, overdue,
}
use ledger_ops_api.Transactions.Expiration.Loop.{
  Settled, expire_overdue_pending-Settled, expire_overdue_pending-ends,
}
use ledger_ops_api.Transactions.Listing.{ListTransactionsQuery, matches, newest_first, newer}
use ledger_ops_api.Transactions.Listing.Paging.{matching, limit_of}
use ledger_ops_api.Transactions.Listing.Crawl.{crawl, crawl-matching}
use ledger_ops_api.Examples.Data.{demo_database, demo_env, demo_payment, demo_refund}
use ledger_ops_api.Database.Rows.{
  same_frozen_fields, by_id, fn_transactions_before_update, history_entry, record_status, replace,
  row_update, save_row,
}
use ledger_ops_api.Database.StateMachine.{transition_exists}
use ledger_ops_api.Transactions.Expiration.Batch.{expire}
use ledger_ops_api.Database.Checks.{
  transaction_checks, fixed_checks, currency_iso, msisdn_e164, fingerprint_hex, refund_checks,
  is_digit,
}
use ledger_ops_api.Database.Rows.Updates.{updated_row}
use ledger_ops_api.Database.Commit.{with_actor}
use ledger_ops_api.Transactions.Expiration.Rounds.{batch_session, expire_one_batch-takes}
use ledger_ops_api.Database.Ledger.{check_entries, commit_checks}
use ledger_ops_api.Database.Rows.Keys.{Stored}

abbrev overdue_payment : Database
overdue_payment = demo_database (demo_payment pending 0 ∷ [])

-- After the expiry of the payment.
abbrev later_env : Env
later_env = record demo_env { clock_now = 900001 }

abbrev unlocked : ℕ → Bool
unlocked i = false

abbrev after_expiry : Database
after_expiry = (expire_one_batch unlocked later_env overdue_payment).1

expired_run : expire_one_batch unlocked later_env overdue_payment ≡ (ok 1, after_expiry)
unfolding expire_one_batch ◌>>=◌ batch_body overdue_batch expire_rows takeable overdue sort_by
    insert_by same_frozen_fields transition_exists transaction_checks fixed_checks currency_iso
    msisdn_e164 fingerprint_hex refund_checks is_digit with_actor check_entries commit_checks
    fn_transactions_before_update history_entry record_status replace row_update save_row str_eq
expired_run = refl

expire_one_batch-takes_example :
    (1 ≡ length (overdue_batch unlocked 900001 overdue_payment.transactions))
    × (1 ≤ expiration_batch_size)
    × All
        (λ (r : Transaction).
          Stored overdue_payment.transactions r × (takeable unlocked 900001 r ≡ true))
        (overdue_batch unlocked 900001 overdue_payment.transactions)
    × (find (by_id 7) after_expiry.transactions ≡ (
        if any (by_id 7) (overdue_batch unlocked 900001 overdue_payment.transactions)
        then map_option
            (updated_row (batch_session later_env) expire)
            (find (by_id 7) overdue_payment.transactions)
        else find (by_id 7) overdue_payment.transactions))
    × (after_expiry.entries ≡ overdue_payment.entries)
    × (after_expiry.postings ≡ overdue_payment.postings)
expire_one_batch-takes_example =
    expire_one_batch-takes unlocked later_env overdue_payment 7 (refl, tt) expired_run

abbrev rounds : ℕ → Env
rounds n = later_env

expire_overdue_pending-ends_example :
    (r : Result ℕ) × (d' : Database) × (expire_overdue_pending unlocked rounds overdue_payment
      ≡ some (r, d'))
expire_overdue_pending-ends_example =
    expire_overdue_pending-ends unlocked rounds overdue_payment (refl, tt)

settled_run : expire_overdue_pending unlocked rounds overdue_payment ≡ some (ok 1, after_expiry)
unfolding expire_overdue_pending pending_count expire_loop expire_one_batch ◌>>=◌ batch_body
    overdue_batch expire_rows takeable overdue sort_by insert_by same_frozen_fields
    transition_exists transaction_checks fixed_checks currency_iso msisdn_e164 fingerprint_hex
    refund_checks is_digit with_actor check_entries commit_checks fn_transactions_before_update
    history_entry record_status replace row_update save_row str_eq
settled_run = refl

expire_overdue_pending-Settled_example : Settled unlocked rounds overdue_payment 1 after_expiry
expire_overdue_pending-Settled_example =
    expire_overdue_pending-Settled unlocked rounds overdue_payment (refl, tt) settled_run

-- Two payments, which a client reads one row at a time.
abbrev pub two_payments : Database
two_payments = demo_database (demo_payment pending 0 ∷ demo_refund succeeded ∷ [])

abbrev pub one_by_one : ListTransactionsQuery
one_by_one = record {
  status = none;
  provider = none;
  date_from = none;
  date_to = none;
  cursor = none;
  limit = some 1;
}

pub one_row : 0 < limit_of one_by_one
one_row = omega arith

pub three_pages : length (matching one_by_one none two_payments) < 3
unfolding matches newest_first sort_by insert_by newer
three_pages = omega arith

crawl-matching_example :
    crawl 3 one_by_one none two_payments ≡ matching one_by_one none two_payments
crawl-matching_example =
    crawl-matching 3 one_by_one none two_payments (refl, (refl, tt)) one_row three_pages
