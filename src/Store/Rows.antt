-- ===== src/Store/Rows.antt =====
-- The rows of migrations/000001_init_schema.up.sql and the types of internal/orders/models.go,
-- internal/orders/review.go and internal/audit/log.go.
-- A UUID is the number of its 128 bits; a time is a signed number of nanoseconds since 1970.
use frpay.Prelude.{ℕ, ℤ, String, Bool, true, false, Option, none, some, List, str_eq}

pub data Status : Type 0 where
  pending confirming confirmed underpaid expired : Status

-- string(o.Status)
abbrev pub status_text : Status → String
status_text pending = "pending"
status_text confirming = "confirming"
status_text confirmed = "confirmed"
status_text underpaid = "underpaid"
status_text expired = "expired"

abbrev pub is_pending : Status → Bool
is_pending pending = true
is_pending _ = false

abbrev pub is_confirming : Status → Bool
is_confirming confirming = true
is_confirming _ = false

pub record Order (D : Type 0) : Type 0 where
  pub id : ℕ
  pub user_id : String
  pub chain : String
  pub token : String
  pub base_amount_usd : D
  pub expected_amount : D
  pub received_amount : Option D
  pub status : Status
  pub tx_hash : Option String
  pub tx_block_height : Option ℤ
  pub confirmations : ℤ
  pub required_confirmations : ℤ
  pub created_at : ℤ
  pub expires_at : ℤ
  pub confirmed_at : Option ℤ
  pub updated_at : ℤ

-- `tx_hash = $n`: a NULL equals nothing.
abbrev pub has_tx : String → Option String → Bool
has_tx tx none = false
has_tx tx (some t) = str_eq t tx

-- `IS NULL`
abbrev pub is_null {ℓ} : {A : Type ℓ} → Option A → Bool
is_null none = true
is_null (some _) = false

pub data ReviewReason : Type 0 where
  reason_unmatched reason_underpaid : ReviewReason

pub record ReviewItem (D : Type 0) : Type 0 where
  pub chain : String
  pub tx_hash : String
  pub amount : D
  pub reason : ReviewReason
  pub related_order_id : Option ℕ

-- A value of the map that `Log` marshals.
pub data Detail : Type 0 where
  text : String → Detail
  number : ℤ → Detail

pub record AuditEntry : Type 0 where
  pub order_id : Option ℕ
  pub chain : String
  pub tx_hash : String
  pub event_type : String
  pub details : List (String × Detail)

-- chain_cursors; a time that is none was never set.
pub record Cursor : Type 0 where
  pub chain : String
  pub last_scanned_height : ℤ
  pub last_scanned_at : Option ℤ

-- The statements that the code sends, by name; an audit entry by its event type.
pub data Statement : Type 0 where
  insert_order get_order list_confirming tx_already_claimed update_confirmations : Statement
  claim_exact_match begin_tx select_candidates mark_underpaid commit_tx : Statement
  expire_past_due log_review_item get_cursor set_cursor : Statement
  log_audit : String → Statement

-- The tables, and what the rest of the world decides: the database's clock, the rows that other
-- transactions hold locked, and the statements that fail (connection lost, context cancelled).
pub record Database (D : Type 0) : Type 0 where
  pub orders : List (Order D)
  pub review_items : List (ReviewItem D)
  pub audit_log : List AuditEntry
  pub cursors : List Cursor
  pub now : ℤ
  pub locked : ℕ → Bool
  pub fails : Statement → Bool
