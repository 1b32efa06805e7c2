-- ===== src/Stats.antt =====
-- StatsService (stats/stats.service.ts, stats/dto/stats-response.dto.ts). The register of the demonstration loads is
-- written by a script: its first start and its last end are parameters.
pub mod Groups
pub mod Counts
use ledger_ops_api.Common.{
  List, ℕ, Bool, Option, length, some, ◌∷◌, filter, true, leb, any, ◌&&◌, none, not, ◌==◌,
  option_eq, ◌-◌, is_some, ◌||◌, [], ◌+◌, suc, if◌then◌else◌,
}
use ledger_ops_api.Database.Rows.{or_else}
use ledger_ops_api.Database.Tables.{
  TransactionType, TransactionStatus, initiated, Transaction, ReconciliationException, Database,
  pending, status_eq, type_eq, succeeded, payment, failed, expired, partially_refunded, refunded,
  disputed, reversed,
}

abbrev pub all_statuses : List TransactionStatus
all_statuses =
    initiated ∷ pending ∷ succeeded ∷ failed ∷ expired ∷ partially_refunded ∷ refunded ∷ disputed
    ∷ reversed ∷ []

pub record StatusCount : Type 0 where
  pub status : TransactionStatus
  pub count : ℕ

pub record PaymentStats : Type 0 where
  pub total : ℕ
  pub by_status : List StatusCount

pub record ReconciliationStats : Type 0 where
  pub window_start : ℕ
  pub window_end : ℕ
  pub settled_transactions : ℕ
  pub reconciled_transactions : ℕ

pub data Scope : Type 0 where
  global merchant_only : Scope

pub record StatsResponse : Type 0 where
  pub scope : Scope
  pub total_transactions : ℕ
  pub by_status : List StatusCount
  pub payments : PaymentStats
  pub open_reconciliation_exceptions : Option ℕ
  pub reconciliation : Option ReconciliationStats
  pub demo_dataset_loaded_at : Option ℕ

unfoldable pub count : {A : Type 0} → (A → Bool) → List A → ℕ
count p xs = length (filter p xs)

-- A row of GROUP BY "type", "status" with its count.
pub record Group : Type 0 where
  pub type : TransactionType
  pub status : TransactionStatus
  pub count : ℕ

-- One more row of the table, in its group.
unfoldable pub add_row : Transaction → List Group → List Group
add_row t [] = record { type = t.type; status = t.status; count = 1 } ∷ []
add_row t (g ∷ gs) =
    let rest = add_row t gs in
    if type_eq g.type t.type && status_eq g.status t.status
    then record g { count = suc g.count } ∷ gs
    else g ∷ rest

-- The groups of a table. A group without rows is not there.
unfoldable pub group_by : List Transaction → List Group
unfolding add_row
group_by [] = []
group_by (t ∷ ts) = add_row t (group_by ts)

-- Map<TransactionStatus, number>
abbrev pub Tally : Type 0
Tally = TransactionStatus → Option ℕ

abbrev pub set : TransactionStatus → ℕ → Tally → Tally
set status n counts s = if status_eq status s then some n else counts s

-- `counts.set(status, (counts.get(status) ?? 0) + n)`
abbrev pub add_to : TransactionStatus → ℕ → Tally → Tally
add_to status n counts = set status (or_else (counts status) 0 + n) counts

unfoldable pub to_status_counts : Tally → List TransactionStatus → List StatusCount
to_status_counts counts [] = []
to_status_counts counts (s ∷ ss) =
    record { status = s; count = or_else (counts s) 0 } ∷ to_status_counts counts ss

-- The variables of the loop over the groups.
pub record Totals : Type 0 where
  pub all : Tally
  pub payments : Tally
  pub total_transactions : ℕ
  pub total_payments : ℕ

unfoldable pub add_group : Totals → Group → Totals
add_group acc g =
    let paid = type_eq g.type payment in
    record {
      all = add_to g.status g.count acc.all;
      payments = if paid then add_to g.status g.count acc.payments else acc.payments;
      total_transactions = acc.total_transactions + g.count;
      total_payments = if paid then acc.total_payments + g.count else acc.total_payments;
    }

unfoldable pub add_groups : Totals → List Group → Totals
unfolding add_group
add_groups acc [] = acc
add_groups acc (g ∷ gs) = add_groups (add_group acc g) gs

abbrev pub no_totals : Totals
no_totals = record {
  all = λ s. none;
  payments = λ s. none;
  total_transactions = 0;
  total_payments = 0;
}

unfoldable pub in_scope : Option ℕ → Transaction → Bool
in_scope none t = true
in_scope (some m) t = t.merchant_id == m

-- Created in the window, and no longer initiated or pending.
unfoldable pub settled : ℕ → ℕ → Transaction → Bool
settled start end t =
    leb start t.created_at
    && leb t.created_at end
    && not (status_eq t.status initiated || status_eq t.status pending)

unfoldable pub has_open_exception : List ReconciliationException → Transaction → Bool
has_open_exception es t =
    any
      (λ (e : ReconciliationException).
        option_eq ◌==◌ e.transaction_id (some t.id) && not (is_some e.resolved_at))
      es

-- The subtraction of two counts of the same window.
unfoldable pub reconciliation : ℕ → ℕ → Database → ReconciliationStats
reconciliation start end d =
    let n = count (settled start end) d.transactions in
    let k = count (λ t. settled start end t && has_open_exception d.exceptions t) d.transactions in
    record {
      window_start = start;
      window_end = end;
      settled_transactions = n;
      reconciled_transactions = n - k;
    }

abbrev window : Option ℕ → Option ℕ → Option ℕ → Database → Option ReconciliationStats
window (some m) start end d = none
window none none end d = none
window none (some a) none d = none
window none (some a) (some b) d = some (reconciliation a b d)

abbrev scope_of : Option ℕ → Scope
scope_of none = global
scope_of (some m) = merchant_only

abbrev open_exceptions : Option ℕ → Database → Option ℕ
open_exceptions none d =
    some (count (λ (e : ReconciliationException). not (is_some e.resolved_at)) d.exceptions)
open_exceptions (some m) d = none

unfoldable pub compute : (started_at loaded_at : Option ℕ) → Option ℕ → Database → StatsResponse
unfolding group_by add_groups
compute started_at loaded_at merchant_id d =
    let sums = add_groups no_totals (group_by (filter (in_scope merchant_id) d.transactions)) in
    record {
      scope = scope_of merchant_id;
      total_transactions = sums.total_transactions;
      by_status = to_status_counts sums.all all_statuses;
      payments = record {
        total = sums.total_payments;
        by_status = to_status_counts sums.payments all_statuses;
      };
      open_reconciliation_exceptions = open_exceptions merchant_id d;
      reconciliation = window merchant_id started_at loaded_at d;
      demo_dataset_loaded_at = loaded_at;
    }
