-- ===== src/RoundTrip.antt =====
-- Headers that the wire format can carry, and that a host accepts field by field. The children
-- prove that reading a header back gives what was encoded.
pub mod Lists
pub mod Parts
pub mod Fields
use fmsgd.Prelude.{
  ℕ, ◌+◌, ◌^◌, ◌≤◌, ◌<◌, ◌≡◌, Bool, true, false, ◌&&◌, ◌||◌, List, [], ◌∷◌, Option, none, some,
  if◌then◌else◌, length, Bytes, All, bytes_eq, map,
}
use fmsgd.Address.{is_valid_user, is_valid_domain, is_valid_attachment_filename}
use fmsgd.Text.{Unicode}
use fmsgd.Wire.{
  Address, AttachmentHeader, Header, to_string, has, flag_has_pid, flag_has_add_to,
  flag_common_type, flag_deflate, flag_terminal, attachment_common_type, attachment_deflate,
}
use fmsgd.Wire.MediaTypes.{get_common_media_type}
use fmsgd.Receive.{Config, contains}
use fmsgd.Receive.Version.{message_reserved_bits_mask}
use fmsgd.Receive.Recipients.{address_key, is_address_in}
use fmsgd.Receive.Fields.{is_past, is_future, is_ascii_bytes}
use fmsgd.Receive.Attachments.{attachment_reserved_bits_mask, Totals, add_attachment, body_totals}
use fmsgd.Receive.WireHeader.{blank}

pub record IsAddress (u : Unicode) (a : Address) : Type 0 where
  pub user : is_valid_user u a.user ≡ true
  pub domain : is_valid_domain a.domain ≡ true
  pub short : length (to_string a) < 256

-- The addresses are valid, and no key is in `seen` or comes twice.
abbrev pub IsFresh : Unicode → List Bytes → List Address → Type 0
IsFresh u seen [] = Unit
IsFresh u seen (a ∷ as_) =
    IsAddress u a
    × (contains (address_key u a) seen ≡ false)
    × IsFresh u (address_key u a ∷ seen) as_

-- A list that is not empty, and whose count fits its byte.
pub record IsRecipients (u : Unicode) (as_ : List Address) : Type 0 where
  pub some_one : 0 < length as_
  pub counted : length as_ < 256
  pub fresh : IsFresh u [] as_

-- The type's id is mapped to its name; without the flag the name is ASCII and the id is 0.
abbrev pub IsTyped : Bool → ℕ → Bytes → Type 0
IsTyped true id name = get_common_media_type id ≡ some name
IsTyped false id name = (is_ascii_bytes name ≡ true) × (length name < 256) × (id ≡ 0)

abbrev pub IsExpanded : Bool → ℕ → Type 0
IsExpanded true n = n < 256 ^ 4
IsExpanded false n = n ≡ 0

pub record IsAttachment (u : Unicode) (a : AttachmentHeader) : Type 0 where
  pub reserved : has a.flags attachment_reserved_bits_mask ≡ false
  pub typed : IsTyped (has a.flags attachment_common_type) a.type_id a.media_type
  pub named : is_valid_attachment_filename u a.filename ≡ true
  pub size : a.size < 256 ^ 4
  pub expanded : IsExpanded (has a.flags attachment_deflate) a.expanded_size

-- The attachment as it stands on the wire: the path is the host's own.
abbrev pub received_attachment : AttachmentHeader → AttachmentHeader
received_attachment a = record a { filepath = [] }

-- The variables of the loop behind the listed attachments.
abbrev pub totals_after : Unicode → Totals → List AttachmentHeader → Totals
totals_after u t [] = t
totals_after u t (a ∷ rest) =
    totals_after u (add_attachment t (u.to_lower a.filename) (received_attachment a)) rest

abbrev pub AreAttachments : Unicode → List Bytes → List AttachmentHeader → Type 0
AreAttachments u seen [] = Unit
AreAttachments u seen (a ∷ rest) =
    IsAttachment u a
    × (contains (u.to_lower a.filename) seen ≡ false)
    × AreAttachments u (u.to_lower a.filename ∷ seen) rest

abbrev pub IsPid : Bool → Bytes → Bytes → Type 0
IsPid true pid topic = (length pid ≡ 32) × (topic ≡ [])
IsPid false pid topic = (pid ≡ []) × (length topic < 256)

-- The add-to fields: with the flag, a pid and an adder among the original participants.
abbrev pub IsAddTo : Unicode → Bool → Bool → Option Address → Header → Type 0
IsAddTo u false replying adder h = (h.add_to_from ≡ none) × (h.add_to ≡ [])
IsAddTo u true replying none h = ⊥
IsAddTo u true replying (some a) h =
    (replying ≡ true)
    × (h.add_to_from ≡ some a)
    × IsAddress u a
    × ((bytes_eq (address_key u h.from) (address_key u a) || is_address_in u (address_key u a) h.to)
        ≡ true)
    × IsRecipients u h.add_to

pub record IsWire (cfg : Config) (h : Header) : Type 0 where
  pub version : h.version ≡ 1
  pub reserved : has h.flags message_reserved_bits_mask ≡ false
  pub leaf : (has h.flags flag_has_add_to && has h.flags flag_terminal) ≡ false
  pub pid : IsPid (has h.flags flag_has_pid) h.pid h.topic
  pub from : IsAddress cfg.unicode h.from
  pub to : IsRecipients cfg.unicode h.to
  pub added :
      IsAddTo cfg.unicode (has h.flags flag_has_add_to) (has h.flags flag_has_pid) h.add_to_from h
  pub timestamp : h.timestamp < 256 ^ 8
  pub in_time : (is_past cfg h.timestamp || is_future cfg h.timestamp) ≡ false
  pub typed : IsTyped (has h.flags flag_common_type) h.type_id h.media_type
  pub size : h.size < 256 ^ 4
  pub expanded : IsExpanded (has h.flags flag_deflate) h.expanded_size
  pub expanded_fits : h.expanded_size ≤ cfg.max_expanded_size
  pub counted : length h.attachments < 256
  pub attachments : AreAttachments cfg.unicode [] h.attachments
  pub fits :
      (totals_after cfg.unicode (body_totals (record h { attachments = [] })) h.attachments).size
      ≤ cfg.max_message_size
  pub expanded_total :
      (totals_after cfg.unicode
        (body_totals (record h { attachments = [] }))
        h.attachments).expanded
      ≤ cfg.max_expanded_size

-- What the receiver makes of the header: the fields on the wire, the rest as it starts.
abbrev pub received : Header → Header
received h = record blank {
  version = h.version;
  flags = h.flags;
  pid = h.pid;
  from = h.from;
  to = h.to;
  add_to_from = h.add_to_from;
  add_to = h.add_to;
  timestamp = h.timestamp;
  type_id = h.type_id;
  topic = h.topic;
  media_type = h.media_type;
  size = h.size;
  expanded_size = h.expanded_size;
  attachments = map received_attachment h.attachments;
}
