-- ===== src/Sender/Rows.antt =====
-- The recipients' rows in the tables msg_to and msg_add_to (cmd/fmsgd/sender.go): which rows are
-- pending, `lockPendingRecipients`, and the updates of a delivery.
pub mod Once
use fmsgd.Prelude.{
  ℕ, ◌+◌, ◌-◌, Bool, true, false, not, ◌&&◌, ◌||◌, List, [], ◌∷◌, Option, none, some, ◌==◌,
  if◌then◌else◌, Bytes, bytes_eq, drop, suc,
}
use fmsgd.Prelude.Int.{ℤ, pos, negsuc, eq_ℤ}
use fmsgd.Text.{Unicode}
use fmsgd.Text.Search.{last_index}
use fmsgd.Receive.{
  reject_code_undisclosed, reject_code_insufficient_resources, reject_code_user_full,
}

pub data Table : Type 0 where
  msg_to msg_add_to : Table

-- A recipient's row. Times are the bit patterns of float64 values; a missing one is NULL.
pub record Row : Type 0 where
  pub msg_id : ℕ
  pub batch_id : ℕ
  pub addr : Bytes
  pub time_delivered : Option ℕ
  pub time_last_attempt : Option ℕ
  pub response_code : Option ℤ
  pub attempt_count : ℕ

abbrev pub local_response_code_no_response : ℤ
local_response_code_no_response = negsuc 0

-- `retryableResponseCodes`.
unfoldable pub is_retryable : ℤ → Bool
is_retryable c =
    eq_ℤ c local_response_code_no_response
    || (eq_ℤ c (pos reject_code_undisclosed)
        || (eq_ℤ c (pos reject_code_insufficient_resources) || eq_ℤ c (pos reject_code_user_full)))

-- The settings of the sender, the time of the query, and the arithmetic of the database.
pub record Schedule : Type 0 where
  pub now : ℕ
  pub retry_interval : ℕ
  pub retry_max_age : ℕ
  pub sub : ℕ → ℕ → ℕ
  pub mul : ℕ → ℕ → ℕ
  pub power_of_two : ℕ → ℕ
  pub least : ℕ → ℕ → ℕ
  pub gt : ℕ → ℕ → Bool

unfoldable pub is_code_open : Option ℤ → Bool
is_code_open none = true
is_code_open (some c) = is_retryable c

module _ (s : Schedule) where
  -- The wait since the last attempt is over; it doubles with each attempt up to the greatest age.
  unfoldable pub is_backed_off : Option ℕ → ℕ → Bool
  is_backed_off none attempts = true
  is_backed_off (some last) attempts =
      s.gt (s.sub s.now last)
        (s.least (s.mul s.retry_interval (s.power_of_two (attempts - 1))) s.retry_max_age)

  unfoldable pub is_undelivered : Option ℕ → Bool
  is_undelivered none = true
  is_undelivered (some t) = false

  -- The conditions of the query on a row of a message that is sent; `since` is the time of sending,
  -- or of the batch.
  unfoldable pub is_pending : ℕ → Row → Bool
  is_pending since r =
      is_undelivered r.time_delivered
      && (is_code_open r.response_code
          && (is_backed_off r.time_last_attempt r.attempt_count
              && s.gt s.retry_max_age (s.sub s.now since)))

-- The rows of one unit: those of the message, and of the batch in msg_add_to.
unfoldable pub is_in_unit : Table → ℕ → ℕ → Row → Bool
is_in_unit msg_to id batch r = r.msg_id == id
is_in_unit msg_add_to id batch r = r.msg_id == id && r.batch_id == batch

-- The domain of an address: what follows the last @.
unfoldable pub domain_of : Bytes → Option ℕ → Option Bytes
domain_of addr none = none
domain_of addr (some i) = some (drop (suc i) addr)

unfoldable pub is_at : Unicode → Bytes → Option Bytes → Bool
is_at u domain none = false
is_at u domain (some d) = u.equal_fold d domain

-- `lockPendingRecipients`: the addresses of the rows at a domain. `sent` is whether the message has
-- a time of sending; `free` is whether another transaction holds the row.
unfoldable pub lock_pending_recipients :
    Unicode → Schedule → Table → ℕ → Bytes → ℕ → Bool → ℕ → (Row → Bool) → List Row → List Bytes
lock_pending_recipients u s table id domain batch sent since free [] = []
lock_pending_recipients u s table id domain batch sent since free (r ∷ rows) =
    let rest = lock_pending_recipients u s table id domain batch sent since free rows in
    if is_in_unit table id batch r
      && (sent
          && (is_pending s since r
              && (free r && is_at u domain (domain_of r.addr (last_index b'@' r.addr)))))
    then r.addr ∷ rest
    else rest

-- The updates of a transaction: `updateRecipient` and `updateNotify`.
pub data Update : Type 0 where
  recipient : Table → Bytes → ℤ → Bool → Update
  notified : ℕ → ℤ → Bool → Update

unfoldable pub set_outcome : ℕ → ℤ → Bool → Row → Row
set_outcome now code true r = record r { time_delivered = some now; response_code = some code }
set_outcome now code false r = record r {
  time_last_attempt = some now;
  response_code = some code;
  attempt_count = r.attempt_count + 1;
}

-- The statement of `updateRecipient` on the rows of its table.
unfoldable pub update_recipient : ℕ → ℕ → Bytes → ℤ → Bool → List Row → List Row
update_recipient id now addr code delivered [] = []
update_recipient id now addr code delivered (r ∷ rows) =
    (if r.msg_id == id && bytes_eq r.addr addr then set_outcome now code delivered r else r)
    ∷ update_recipient id now addr code delivered rows

-- `updateLocked`.
unfoldable pub update_locked : Table → List Bytes → ℤ → Bool → List Update
update_locked table [] code delivered = []
update_locked table (a ∷ as_) code delivered =
    recipient table a code delivered ∷ update_locked table as_ code delivered

-- `updateNotify`; the row 0 is none.
unfoldable pub update_notify : ℕ → ℤ → Bool → List Update
update_notify id code done = if id == 0 then [] else notified id code done ∷ []
