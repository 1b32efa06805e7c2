-- ===== src/System/Reachable.antt =====
-- The invariants, on the databases that the service reaches.
use ledger_ops_api.System.Steps.{
  Step, Reach, payment_created, refund_created, transitioned, simulated_job, batch_expired,
  merchant_created, key_created, key_revoked, discrepancy_reported, exception_resolved, here, next,
}
use ledger_ops_api.Database.Tables.{
  Database, Transaction, payment, reversed, status_eq, EntryDirection,
}
use ledger_ops_api.Common.{◌≡◌, [], refl, ◌≢◌, ◌⊎◌, ◌≤◌, All-find, Bool-cases, inl, inr, arith}
use ledger_ops_api.System.Preservation.{CallPreserves}
use ledger_ops_api.Database.Ledger.{total, in_currency}
use ledger_ops_api.System.Kept.{Kept}
use ledger_ops_api.System.Invariant.{Invariant, Good, Good-Kept, Written-Kept}
use ledger_ops_api.System.Calls.{
  merchants_create-Keeps, keys_create-Keeps, revoke-Keeps, report_discrepancy-Keeps, resolve-Keeps,
}
use ledger_ops_api.System.Creations.{create-Keeps, create_refund-Keeps, process-Keeps}
use ledger_ops_api.System.Trail.{WellFormed}
use ledger_ops_api.System.Extends.{Extends}
use ledger_ops_api.System.Growth.{GrownFrom, GrownFrom-Written, Extends-refl}
use ledger_ops_api.Database.Rows.Keys.{Stored}
use ledger_ops_api.System.Refunds.Totals.{refunds_total}
use ledger_ops_api.System.Refunds.Transitions.{Settled}
use ledger_ops_api.System.Refunds.Kept.{Settled-Kept}
use ledger_ops_api.Database.Rows.{by_id}
use ledger_ops_api.Database.Checks.Meaning.{transaction_checks-Sound}
use ledger_ops_api.Database.Rows.Updates.{status_eq→≡}
use ledger_ops_api.System.Books.Totals.{booked}
use ledger_ops_api.System.Books.Dues.{due}
use ledger_ops_api.System.Books.Moves.{Accurate}
use ledger_ops_api.System.Books.Kept.{Accurate-Kept}

-- What every write keeps, every run keeps.
module _ (P : Database → Type 0) (kept : Kept P) where
  mutual
    unfolding CallPreserves

    Step-Keeps : {s t : Database} → Step s t → P s → P t
    Step-Keeps (payment_created p dto key m env quiet) g =
        create-Keeps P kept p dto key m (λ x h. Reach-Keeps (quiet x) h) env _ g
    Step-Keeps (refund_created p reference dto key m env quiet before) g =
        create_refund-Keeps P kept p reference dto key m (λ x h. Reach-Keeps (quiet x) h)
          (λ x h. Reach-Keeps (before x) h) env _ g
    Step-Keeps (transitioned reference dto v env) g = kept.transitions reference dto v env _ g
    Step-Keeps (simulated_job between rate draw job reference env quiet) g =
        process-Keeps P kept between rate draw job reference (λ x h. Reach-Keeps (quiet x) h) env _
          g
    Step-Keeps (batch_expired locked env) g = kept.batches locked env _ g
    Step-Keeps (merchant_created dto env) g = merchants_create-Keeps P kept dto env _ g
    Step-Keeps (key_created hash dto raw env) g = keys_create-Keeps P kept hash dto raw env _ g
    Step-Keeps (key_revoked i env) g = revoke-Keeps P kept i env _ g
    Step-Keeps (discrepancy_reported input env) g = report_discrepancy-Keeps P kept input env _ g
    Step-Keeps (exception_resolved i resolution who env) g =
        resolve-Keeps P kept i resolution who env _ g

    Reach-Keeps : {s t : Database} → Reach s t → P s → P t
    Reach-Keeps here g = g
    Reach-Keeps (next r st) g = Step-Keeps st (Reach-Keeps r g)

-- In every database that the calls of the service reach from one without transactions, history and postings: no two transactions
-- share an id, a reference or an idempotency key; every transaction passes the checks of its table; the history of each leads, by
-- rows of the table of transitions, from its creation in the state initiated to its status, and is about known transactions; and
-- the debits equal the credits in each currency. This holds whatever the calls are given, whether they return or throw, and
-- whatever other calls do in between.
pub Reach-Invariant :
    (start d : Database)
    → start.transactions ≡ []
    → start.history ≡ []
    → start.postings ≡ []
    → Reach start d
    → Invariant d.transactions d.history d.postings
unfolding total in_currency
Reach-Invariant start d ts hs ps r = Reach-Keeps Good Good-Kept r (
    rw (ts, hs, ps)
      (record {
        rows = record { unique = tt; checked = tt; told = tt; known = tt };
        balanced = λ currency. refl;
      }))

pub Reach-WellFormed :
    {from d : Database}
    → Reach from d
    → WellFormed from.transactions from.history
    → WellFormed d.transactions d.history
Reach-WellFormed {from} {d} r w =
    (Reach-Keeps (GrownFrom from) (Written-Kept (GrownFrom from) (GrownFrom-Written from)) r
      (w, Extends-refl from w.unique)).0

-- What the calls of the service make of a well-formed database extends it: every transaction is still there, unchanged, or as a
-- later version that differs in its status, refunded amount, version and date only, and whose refunded amount is no less; and the
-- history, the journal entries and the postings are those of before, with new ones in front. So two readings of a transaction with
-- one version are the same row.
pub Reach-Extends :
    (from d : Database) → WellFormed from.transactions from.history → Reach from d → Extends from d
Reach-Extends from d w r =
    (Reach-Keeps (GrownFrom from) (Written-Kept (GrownFrom from) (GrownFrom-Written from)) r
      (w, Extends-refl from w.unique)).1

empty-Settled : (start : Database) → start.transactions ≡ [] → start.history ≡ [] → Settled start
empty-Settled start ts hs = record {
  rows = rw (ts, hs) (record { unique = tt; checked = tt; told = tt; known = tt });
  parents = rw ts tt;
  accounts = rw ts tt;
}

-- In every database that the calls of the service reach from one without transactions and history, the refunded amount of a payment
-- is the sum of the amounts of its confirmed refunds; only a reversed payment is refunded in whole, with confirmed refunds for no more.
-- So the confirmed refunds of a payment never add up to more than its amount.
pub Reach-Settled :
    (start d : Database) (t : Transaction)
    → start.transactions ≡ []
    → start.history ≡ []
    → Reach start d
    → Stored d.transactions t
    → t.type ≡ payment
    → (((t.status ≢ reversed) × (t.refunded_amount ≡ refunds_total t.id d.transactions))
        ⊎ ((t.status ≡ reversed) × (t.refunded_amount ≡ t.amount)))
      × (refunds_total t.id d.transactions ≤ t.refunded_amount)
      × (t.refunded_amount ≤ t.amount)
Reach-Settled start d t ts hs r h k =
    let w = Reach-Keeps Settled Settled-Kept r (empty-Settled start ts hs) in
    let (exact, whole, within) = All-find _ (by_id t.id) d.transactions w.accounts h k in
    let sound =
      transaction_checks-Sound t (All-find _ (by_id t.id) d.transactions w.rows.checked h) in
    (
      elim (Bool-cases (status_eq t.status reversed)) [
        | inl y ↦ let e = status_eq→≡ t.status reversed y in inr (e, whole e)
        | inr n ↦ let e : t.status ≢ reversed = ground arith in inl (e, omega (arith, exact e))
      ],
      omega arith,
      sound.within,
    )

-- In every database that the calls of the service reach from an empty one, each side of the ledger has booked for each transaction what
-- its status makes due, once: nothing for a payment or a refund that is not confirmed, its amount for one that is, and for a reversed
-- payment its amount and the return of what its confirmed refunds had left of it.
pub Reach-Booked :
    (side : EntryDirection) (start d : Database) (t : Transaction)
    → start.transactions ≡ []
    → start.history ≡ []
    → start.entries ≡ []
    → start.postings ≡ []
    → Reach start d
    → Stored d.transactions t
    → booked side t.id d.entries d.postings ≡ due (refunds_total t.id d.transactions) t
Reach-Booked side start d t ts hs es ps r h =
    let w = Reach-Keeps (Accurate side) (Accurate-Kept side) r (record {
      settled = empty-Settled start ts hs;
      ledger = record { postings = rw (es, ps) tt; entries = rw (ts, es) tt; dues = rw ts tt };
    }) in
    let all = All-find _ (by_id t.id) d.transactions w.ledger.dues h in omega arith
