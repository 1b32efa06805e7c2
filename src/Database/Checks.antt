-- ===== src/Database/Checks.antt =====
-- The CHECK constraints on transactions (migrations init_ledger 2.1 and freeze_expires_at).
pub mod Meaning
use Prim.Native.Char.{code}
use ledger_ops_api.Common.{
  ℕ, String, Option, none, some, Bool, true, false, not, ◌&&◌, ◌||◌, List, [], ◌∷◌, ltb, leb, ◌==◌,
  all, length,
}
use ledger_ops_api.Database.Tables.{
  Transaction, TransactionStatus, TransactionType, payment, refund, initiated, pending, succeeded,
  failed, expired, partially_refunded, refunded, disputed, reversed, status_eq, type_eq,
}

abbrev pub codes : String → List ℕ
codes String.[] = []
codes (String.◌∷◌ c s) = code c ∷ codes s

-- VARCHAR(n), of a column that may be NULL too.
unfoldable pub varchar : ℕ → String → Bool
varchar n s = leb (length (codes s)) n

unfoldable pub varchar_or_null : ℕ → Option String → Bool
unfolding varchar
varchar_or_null n none = true
varchar_or_null n (some s) = varchar n s

is_upper : ℕ → Bool
is_upper c = leb b'A' c && leb c b'Z'

unfoldable pub is_digit : ℕ → Bool
is_digit c = leb b'0' c && leb c b'9'

is_hex : ℕ → Bool
unfolding is_digit
is_hex c = is_digit c || (leb b'a' c && leb c b'f')

-- ^[A-Z]{3}$
unfoldable pub currency_iso : String → Bool
unfolding is_upper
currency_iso s = let cs = codes s in length cs == 3 && all is_upper cs

-- [1-9][0-9]{7,14}
e164_digits : List ℕ → Bool
unfolding is_digit
e164_digits [] = false
e164_digits (c ∷ cs) =
    (leb b'1' c && leb c b'9') && leb 7 (length cs) && leb (length cs) 14 && all is_digit cs

e164_codes : List ℕ → Bool
unfolding e164_digits
e164_codes [] = false
e164_codes (c ∷ cs) = c == b'+' && e164_digits cs

-- ^\+[1-9][0-9]{7,14}$
unfoldable pub msisdn_e164 : String → Bool
unfolding e164_codes
msisdn_e164 s = e164_codes (codes s)

-- ^[0-9a-f]{64}$
unfoldable pub fingerprint_hex : String → Bool
unfolding is_hex
fingerprint_hex s = let cs = codes s in length cs == 64 && all is_hex cs

-- "status" IN ('INITIATED', 'PENDING', 'SUCCEEDED', 'FAILED', 'EXPIRED')
abbrev pub is_plain_status : TransactionStatus → Bool
is_plain_status initiated = true
is_plain_status pending = true
is_plain_status succeeded = true
is_plain_status failed = true
is_plain_status expired = true
is_plain_status partially_refunded = false
is_plain_status refunded = false
is_plain_status disputed = false
is_plain_status reversed = false

abbrev parent_by_type : TransactionType → Option ℕ → Bool
parent_by_type refund none = false
parent_by_type refund (some p) = true
parent_by_type payment none = true
parent_by_type payment (some p) = false

abbrev refund_statuses : TransactionType → TransactionStatus → ℕ → Bool
refund_statuses type status refunded_amount =
    type_eq type payment || (refunded_amount == 0 && is_plain_status status)

abbrev status_refund_consistency : TransactionStatus → ℕ → ℕ → Bool
status_refund_consistency status refunded_amount amount =
    (not (is_plain_status status) || refunded_amount == 0)
    && (not (status_eq status partially_refunded)
        || (ltb 0 refunded_amount && ltb refunded_amount amount))
    && (not (status_eq status refunded) || refunded_amount == amount)

abbrev expires_after_created : Option ℕ → ℕ → Bool
expires_after_created none created_at = true
expires_after_created (some t) created_at = ltb created_at t

-- The constraints on the columns that no update changes.
unfoldable pub fixed_checks : Transaction → Bool
fixed_checks t =
    ltb 0 t.amount
    && currency_iso t.currency
    && msisdn_e164 t.customer_msisdn
    && fingerprint_hex t.request_fingerprint
    && parent_by_type t.type t.parent_transaction_id
    && expires_after_created t.expires_at t.created_at

-- The constraints that join the status and the refunded amount.
unfoldable pub refund_checks : Transaction → Bool
refund_checks t =
    leb t.refunded_amount t.amount
    && refund_statuses t.type t.status t.refunded_amount
    && status_refund_consistency t.status t.refunded_amount t.amount

unfoldable pub transaction_checks : Transaction → Bool
transaction_checks t = fixed_checks t && refund_checks t
