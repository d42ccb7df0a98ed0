-- ===== src/Receive/Limits.antt =====
-- The limits of a recipient (cmd/fmsgd/host.go, cmd/fmsgd/id.go): `AddressDetail`,
-- `recvLimitExceeded` and `validateMsgRecvForAddr`. Counts and sizes are int64.
pub mod Bounds
use fmsgd.Prelude.{ℕ, Bool, true, false, not, ◌&&◌, Option, none, some, if◌then◌else◌, Bytes}
use fmsgd.Prelude.Int.{ℤ, pos, negsuc, ltb_ℤ, add64}
use fmsgd.Wire.{Address, Header}
use fmsgd.Receive.{
  reject_code_user_unknown, reject_code_user_full, reject_code_user_not_accepting,
  reject_code_user_duplicate, reject_code_accept,
}
use fmsgd.Receive.Delivery.{stored_size}

-- The fields of `AddressDetail` that receiving reads.
pub record AddressDetail : Type 0 where
  pub accepting_new : Bool
  pub limit_recv_size_total : ℤ
  pub limit_recv_size_per_1d : ℤ
  pub limit_recv_count_per_1d : ℤ
  pub recv_size_total : ℤ
  pub recv_size_per_1d : ℤ
  pub recv_count_per_1d : ℤ

-- The limits that the texts of `recvLimitExceeded` name.
pub data Limit : Type 0 where
  count_per_1d size_per_1d size_total : Limit

-- One limit; -1 and below are no limit.
unfoldable pub is_exceeded : ℤ → ℤ → ℤ → Bool
is_exceeded limit used more = ltb_ℤ (negsuc 0) limit && ltb_ℤ limit (add64 used more)

-- `recvLimitExceeded`: the limit that would be exceeded; none for the empty text.
unfoldable pub recv_limit_exceeded : AddressDetail → ℤ → Option Limit
recv_limit_exceeded d size =
    if is_exceeded d.limit_recv_count_per_1d d.recv_count_per_1d (pos 1)
    then some count_per_1d
    else if is_exceeded d.limit_recv_size_per_1d d.recv_size_per_1d size
    then some size_per_1d
    else if is_exceeded d.limit_recv_size_total d.recv_size_total size
    then some size_total
    else none

unfoldable pub code_of_limit : Option Limit → ℕ
code_of_limit none = reject_code_accept
code_of_limit (some l) = reject_code_user_full

unfoldable pub code_of_detail : Header → Option AddressDetail → ℕ
code_of_detail h none = reject_code_user_unknown
code_of_detail h (some d) =
    if not d.accepting_new
    then reject_code_user_not_accepting
    else code_of_limit (recv_limit_exceeded d (pos (stored_size h)))

unfoldable pub code_of_duplicate : Header → Option (Option AddressDetail) → Bool → Option ℕ
code_of_duplicate h detail true = some reject_code_user_duplicate
code_of_duplicate h none false = none
code_of_duplicate h (some d) false = some (code_of_detail h d)

-- `validateMsgRecvForAddr`, from whether the address has the message already and from its detail;
-- none is an error of either lookup.
unfoldable pub validate_msg_recv_for_addr :
    Header → Option Bool → Option (Option AddressDetail) → Option ℕ
validate_msg_recv_for_addr h none detail = none
validate_msg_recv_for_addr h (some duplicate) detail = code_of_duplicate h detail duplicate
