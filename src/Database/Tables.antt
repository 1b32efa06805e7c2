-- ===== src/Database/Tables.antt =====
-- The tables of the migrations, as records (prisma/schema.prisma, prisma/migrations). UUIDs are
-- 128-bit numbers, which are only compared; a point in time is a number of milliseconds. A table is
-- the list of its rows, the newest first.
use ledger_ops_api.Common.{ℕ, String, Option, List, Bool, ◌==◌}

pub data Provider : Type 0 where
  orange_money mtn_momo wave moov_money : Provider

pub data TransactionType : Type 0 where
  payment refund : TransactionType

pub data TransactionStatus : Type 0 where
  initiated pending succeeded failed expired partially_refunded refunded disputed reversed :
      TransactionStatus

pub data EntryDirection : Type 0 where
  debit credit : EntryDirection

pub data ActorType : Type 0 where
  user system provider : ActorType

pub data AccountType : Type 0 where
  asset liability equity revenue expense : AccountType

pub data ReconciliationExceptionKind : Type 0 where
  late_acknowledgment missing_in_statement missing_locally amount_mismatch :
      ReconciliationExceptionKind

pub data ApiRole : Type 0 where
  merchant operator analyst admin : ApiRole

-- Equality tests of enumerations go by the position of the value in its declaration.
abbrev pub provider_rank : Provider → ℕ
provider_rank orange_money = 0
provider_rank mtn_momo = 1
provider_rank wave = 2
provider_rank moov_money = 3

abbrev pub status_rank : TransactionStatus → ℕ
status_rank initiated = 0
status_rank pending = 1
status_rank succeeded = 2
status_rank failed = 3
status_rank expired = 4
status_rank partially_refunded = 5
status_rank refunded = 6
status_rank disputed = 7
status_rank reversed = 8

abbrev pub type_rank : TransactionType → ℕ
type_rank payment = 0
type_rank refund = 1

abbrev pub direction_rank : EntryDirection → ℕ
direction_rank debit = 0
direction_rank credit = 1

abbrev pub kind_rank : ReconciliationExceptionKind → ℕ
kind_rank late_acknowledgment = 0
kind_rank missing_in_statement = 1
kind_rank missing_locally = 2
kind_rank amount_mismatch = 3

abbrev pub role_rank : ApiRole → ℕ
role_rank merchant = 0
role_rank operator = 1
role_rank analyst = 2
role_rank admin = 3

abbrev pub provider_eq : Provider → Provider → Bool
provider_eq a b = provider_rank a == provider_rank b

abbrev pub status_eq : TransactionStatus → TransactionStatus → Bool
status_eq a b = status_rank a == status_rank b

abbrev pub type_eq : TransactionType → TransactionType → Bool
type_eq a b = type_rank a == type_rank b

abbrev pub direction_eq : EntryDirection → EntryDirection → Bool
direction_eq a b = direction_rank a == direction_rank b

abbrev pub kind_eq : ReconciliationExceptionKind → ReconciliationExceptionKind → Bool
kind_eq a b = kind_rank a == kind_rank b

abbrev pub role_eq : ApiRole → ApiRole → Bool
role_eq a b = role_rank a == role_rank b

pub record LedgerAccount : Type 0 where
  pub id : ℕ
  pub code : String
  pub name : String
  pub type : AccountType
  pub currency : String
  pub is_active : Bool

pub record JournalEntry : Type 0 where
  pub id : ℕ
  pub description : String
  pub transaction_id : Option ℕ
  pub reverses_entry_id : Option ℕ
  pub created_tx_id : ℕ
  pub created_at : ℕ

-- A posting's own id and time are never read, and left out.
pub record LedgerPosting : Type 0 where
  pub entry_id : ℕ
  pub account_id : ℕ
  pub direction : EntryDirection
  pub amount : ℕ
  pub currency : String

pub record Transaction : Type 0 where
  pub id : ℕ
  pub reference : String
  pub type : TransactionType
  pub status : TransactionStatus
  pub provider : Provider
  pub provider_reference : Option String
  pub amount : ℕ
  pub currency : String
  pub refunded_amount : ℕ
  pub customer_msisdn : String
  pub parent_transaction_id : Option ℕ
  pub merchant_id : ℕ
  pub idempotency_key : String
  pub request_fingerprint : String
  pub version : ℕ
  pub expires_at : Option ℕ
  pub created_at : ℕ
  pub updated_at : ℕ

pub record TransactionStatusHistory : Type 0 where
  pub transaction_id : ℕ
  pub from_status : Option TransactionStatus
  pub to_status : TransactionStatus
  pub actor_type : ActorType
  pub actor_id : Option String
  pub reason : Option String
  pub created_at : ℕ

pub record ReconciliationException : Type 0 where
  pub id : ℕ
  pub kind : ReconciliationExceptionKind
  pub transaction_id : Option ℕ
  pub reported_status : Option TransactionStatus
  pub provider_reference : Option String
  pub detail : Option String
  pub detected_at : ℕ
  pub resolved_at : Option ℕ
  pub resolved_by : Option String
  pub resolution : Option String

pub record Merchant : Type 0 where
  pub id : ℕ
  pub code : String
  pub name : String
  pub is_active : Bool
  pub created_at : ℕ

pub record ApiKey : Type 0 where
  pub id : ℕ
  pub label : String
  pub role : ApiRole
  pub hashed_key : String
  pub merchant_id : Option ℕ
  pub is_active : Bool
  pub revoked_at : Option ℕ
  pub created_at : ℕ

pub record Database : Type 0 where
  pub transactions : List Transaction
  pub history : List TransactionStatusHistory
  pub entries : List JournalEntry
  pub postings : List LedgerPosting
  pub accounts : List LedgerAccount
  pub merchants : List Merchant
  pub exceptions : List ReconciliationException
  pub api_keys : List ApiKey
