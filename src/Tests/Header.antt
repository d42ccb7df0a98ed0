-- ===== src/Tests/Header.antt =====
-- A header with every optional field, read back from its encoding.
use fmsgd.Prelude.{◌≡◌, refl, ◌↔◌, true, [], ◌∷◌, ◌++◌, some, arith}
use fmsgd.Text.{codes}
use fmsgd.Address.{
  is_valid_user, is_valid_domain, is_valid_attachment_filename, parse_address, parsed,
}
use fmsgd.Address.Parse.{parse_address_iff}
use fmsgd.Wire.{Header, AttachmentHeader, has, to_string}
use fmsgd.Wire.Encode.{encode}
use fmsgd.Wire.MediaTypes.{get_common_media_type}
use fmsgd.Conn.{Conn, closed, ok}
use fmsgd.Receive.{contains}
use fmsgd.Receive.Version.{not_outgoing}
use fmsgd.Receive.Recipients.{address_key, is_address_in}
use fmsgd.Receive.Fields.{is_past, is_future, is_ascii_bytes}
use fmsgd.Receive.Attachments.{add_attachment, body_totals}
use fmsgd.Receive.WireHeader.{blank, read_wire}
use fmsgd.RoundTrip.{IsAddress, IsWire, received}
use fmsgd.RoundTrip.Fields.{read_wire-encode}
use fmsgd.Tests.{ascii, config, alice, bob, carol, thirty_two}

abbrev photo : AttachmentHeader
photo = record {
  flags = 2;
  type_id = 0;
  media_type = codes "a/b";
  filename = codes "x.txt";
  size = 3;
  expanded_size = 9;
  filepath = codes "tmp";
}

-- Flags: pid, add-to, common type and deflate.
abbrev pub sample : Header
sample = record blank {
  version = 1;
  flags = 39;
  pid = thirty_two;
  from = alice;
  to = bob ∷ [];
  add_to_from = some alice;
  add_to = carol ∷ bob ∷ [];
  timestamp = 900;
  type_id = 3;
  media_type = codes "application/json";
  size = 10;
  expanded_size = 20;
  attachments = photo ∷ [];
}

alice-IsAddress : IsAddress ascii alice
unfolding is_valid_user is_valid_domain to_string
alice-IsAddress = record { user = refl; domain = refl; short = omega arith }

bob-IsAddress : IsAddress ascii bob
unfolding is_valid_user is_valid_domain to_string
bob-IsAddress = record { user = refl; domain = refl; short = omega arith }

carol-IsAddress : IsAddress ascii carol
unfolding is_valid_user is_valid_domain to_string
carol-IsAddress = record { user = refl; domain = refl; short = omega arith }

pub sample-IsWire : IsWire config sample
unfolding has contains address_key is_address_in get_common_media_type is_past is_future
    is_valid_attachment_filename add_attachment body_totals is_ascii_bytes
sample-IsWire = record {
  version = refl;
  reserved = refl;
  leaf = refl;
  pid = (refl, refl);
  from = alice-IsAddress;
  to = record { some_one = omega arith; counted = omega arith; fresh = (bob-IsAddress, refl, tt) };
  added = (
    refl,
    refl,
    alice-IsAddress,
    refl,
    record {
      some_one = omega arith;
      counted = omega arith;
      fresh = (carol-IsAddress, refl, (bob-IsAddress, refl, tt));
    },
  );
  timestamp = omega arith;
  in_time = refl;
  typed = refl;
  size = omega arith;
  expanded = omega arith;
  expanded_fits = omega arith;
  counted = omega arith;
  attachments = (
    record {
      reserved = refl;
      typed = (refl, omega arith, refl);
      named = refl;
      size = omega arith;
      expanded = omega arith;
    },
    refl,
    tt,
  );
  fits = omega arith;
  expanded_total = omega arith;
}

abbrev pub idle : Conn
idle = record { input = []; ending = closed; writable = true; sent = [] }

read_wire-encode_example :
    read_wire (λ _. not_outgoing) config (record idle { input = encode sample ++ 7 ∷ [] })
    ≡ ok (some (received sample)) (record idle { input = 7 ∷ [] })
read_wire-encode_example =
    read_wire-encode (λ _. not_outgoing) config sample (7 ∷ []) idle sample-IsWire

parse_address_iff_example : (parse_address ascii (codes "@alice@a.com") ≡ parsed alice) ↔ (
    (to_string alice ≡ codes "@alice@a.com")
    × (is_valid_user ascii alice.user ≡ true)
    × (is_valid_domain alice.domain ≡ true))
parse_address_iff_example = parse_address_iff ascii (codes "@alice@a.com") alice
