-- ===== src/Receive.antt =====
-- Receiving a message (cmd/fmsgd/host.go): the response codes, and what the handlers read of the
-- host's configuration and of the services around it.
pub mod Version
pub mod Recipients
pub mod Fields
pub mod Attachments
pub mod WireHeader
pub mod Host
pub mod Parents
pub mod Admit
pub mod Delivery
pub mod Limits
pub mod Payload
pub mod Download
pub mod Serve
pub mod Answers
pub mod Replies
use fmsgd.Prelude.{
  ℕ, Bool, true, false, ◌||◌, List, [], ◌∷◌, Option, Bytes, bytes_eq, ◌==◌, not, bit_and,
}
use fmsgd.Text.{Unicode}
use fmsgd.Wire.{Address}

abbrev pub reject_code_invalid : ℕ
reject_code_invalid = 1

abbrev pub reject_code_undisclosed : ℕ
reject_code_undisclosed = 3

abbrev pub reject_code_too_big : ℕ
reject_code_too_big = 4

abbrev pub reject_code_insufficient_resources : ℕ
reject_code_insufficient_resources = 5

abbrev pub reject_code_parent_not_found : ℕ
reject_code_parent_not_found = 6

abbrev pub reject_code_past_time : ℕ
reject_code_past_time = 7

abbrev pub reject_code_future_time : ℕ
reject_code_future_time = 8

abbrev pub reject_code_time_travel : ℕ
reject_code_time_travel = 9

abbrev pub reject_code_duplicate : ℕ
reject_code_duplicate = 10

abbrev pub accept_code_add_to : ℕ
accept_code_add_to = 11

abbrev pub accept_code_continue : ℕ
accept_code_continue = 64

abbrev pub accept_code_skip_data : ℕ
accept_code_skip_data = 65

abbrev pub reject_code_user_unknown : ℕ
reject_code_user_unknown = 100

abbrev pub reject_code_user_full : ℕ
reject_code_user_full = 101

abbrev pub reject_code_user_not_accepting : ℕ
reject_code_user_not_accepting = 102

abbrev pub reject_code_user_duplicate : ℕ
reject_code_user_duplicate = 103

abbrev pub reject_code_user_undisclosed : ℕ
reject_code_user_undisclosed = 105

abbrev pub reject_code_accept : ℕ
reject_code_accept = 200

-- The operations on float64 values that the checks use, on bit patterns.
pub record Float64 : Type 0 where
  pub sub : ℕ → ℕ → ℕ
  pub abs : ℕ → ℕ
  pub gt : ℕ → ℕ → Bool

-- The configuration read at startup, the time of the call, and the Unicode tables.
pub record Config : Type 0 where
  pub unicode : Unicode
  pub float : Float64
  pub domain : Bytes
  pub now : ℕ
  pub past_time_delta : ℕ
  pub future_time_delta : ℕ
  pub max_message_size : ℕ
  pub max_expanded_size : ℕ

-- A map used as a set of strings.
unfoldable pub contains : Bytes → List Bytes → Bool
unfolding bytes_eq
contains key [] = false
contains key (k ∷ ks) = bytes_eq k key || contains key ks

-- `hasDomainRecipient`.
unfoldable pub has_domain_recipient : Unicode → List Address → Bytes → Bool
has_domain_recipient u [] domain = false
has_domain_recipient u (a ∷ as_) domain =
    u.equal_fold a.domain domain || has_domain_recipient u as_ domain
