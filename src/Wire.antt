-- ===== src/Wire.antt =====
-- Package pkg/fmsg: the message types (pkg/fmsg/fmsg.go).
pub mod Encode
pub mod Hash
pub mod MediaTypes
use fmsgd.Prelude.{ℕ, Bool, List, ◌∷◌, ◌++◌, Option, not, bit_and, ◌==◌, Bytes}

-- The flag bits of a message.
abbrev pub flag_has_pid : ℕ
flag_has_pid = 1

abbrev pub flag_has_add_to : ℕ
flag_has_add_to = 2

abbrev pub flag_common_type : ℕ
flag_common_type = 4

abbrev pub flag_deflate : ℕ
flag_deflate = 32

abbrev pub flag_terminal : ℕ
flag_terminal = 64

-- The flag bits of an attachment, `1 << 0` and `1 << 1`.
abbrev pub attachment_common_type : ℕ
attachment_common_type = 1

abbrev pub attachment_deflate : ℕ
attachment_deflate = 2

-- `flags & mask != 0`.
unfoldable pub has : ℕ → ℕ → Bool
has flags mask = not (bit_and flags mask == 0)

pub record Address : Type 0 where
  pub user : Bytes
  pub domain : Bytes

-- `Address.ToString`: "@user@domain".
unfoldable pub to_string : Address → Bytes
to_string a = b'@' ∷ (a.user ++ b'@' ∷ a.domain)

pub record AttachmentHeader : Type 0 where
  pub flags : ℕ
  pub type_id : ℕ
  pub media_type : Bytes
  pub filename : Bytes
  pub size : ℕ
  pub expanded_size : ℕ
  pub filepath : Bytes

-- `timestamp` is the bit pattern of the float64. A nil slice that the code tells apart from an
-- empty one is an `Option`; `header_hash` and `message_hash` are the cached digests.
pub record Header : Type 0 where
  pub version : ℕ
  pub flags : ℕ
  pub pid : Bytes
  pub from : Address
  pub to : List Address
  pub add_to_from : Option Address
  pub add_to : List Address
  pub timestamp : ℕ
  pub type_id : ℕ
  pub topic : Bytes
  pub media_type : Bytes
  pub size : ℕ
  pub expanded_size : ℕ
  pub attachments : List AttachmentHeader
  pub header_hash : Option Bytes
  pub challenge_hash : Bytes
  pub challenge_completed : Bool
  pub initial_response_code : ℕ
  pub filepath : Bytes
  pub stored_wire : Bytes
  pub message_hash : Option Bytes
