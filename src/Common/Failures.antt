-- ===== src/Common/Failures.antt =====
-- The exceptions of the code and of the database as values, and results.
use Prim.Native.Nat.{ℕ}

-- The SQLSTATE codes of the integrity rules.
pub data LedgerErrorCode : Type 0 where
  append_only unbalanced_entry currency_mismatch sealed_entry invalid_transition : LedgerErrorCode
  frozen_field missing_actor invalid_reversal inactive_account business_rule : LedgerErrorCode

-- What a call may throw: an `HttpException`, an error of the database, or a plain `Error`.
pub data Failure : Type 0 where
  bad_request unauthorized forbidden not_found conflict precondition_failed : Failure
  unprocessable_entity : Failure
  reconciliation_required : ℕ → Failure
  ledger_error : LedgerErrorCode → Failure
  unique_violation check_violation foreign_key_violation numeric_out_of_range : Failure
  value_too_long record_not_found plain_error : Failure

pub data Result {ℓ} (A : Type ℓ) : Type ℓ where
  ok : A → Result A
  err : Failure → Result A
