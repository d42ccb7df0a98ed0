-- ===== src/Tests/Serve.antt =====
-- A server, the messages that it takes, and a challenge.
use mathlib.Core.Option
use mathlib.Core.Path.{subst}
use fmsgd.Prelude.{◌++◌, ◌≡◌, ◌↔◌, refl, true, false, arith, [], ◌∷◌, none, some, length}
use fmsgd.Prelude.Int.{pos, negsuc, add64}
use fmsgd.Text.{codes}
use fmsgd.Conn.{ok}
use fmsgd.Wire.{has}
use fmsgd.Wire.Encode.{encode}
use fmsgd.Wire.Hash.{get_header_hash}
use fmsgd.Receive.Version.{answer, not_outgoing, read_version_or_challenge}
use fmsgd.Receive.WireHeader.{blank}
use fmsgd.Receive.Delivery.{never}
use fmsgd.Receive.Limits.{
  AddressDetail, validate_msg_recv_for_addr, code_of_duplicate, code_of_detail, recv_limit_exceeded,
  is_exceeded, code_of_limit,
}
use fmsgd.Receive.Limits.Bounds.{IsCounted, IsOpen, validate_msg_recv_for_addr_iff}
use fmsgd.Receive.Delivery.{stored_size, stored_sizes}
use fmsgd.Receive.Download.{
  Inbox, Progress, recipient_loop, and_then, recipient_step, on_code, copied, first_accepted,
  with_wire, with_attachments, accepted_by, store_accepted_message,
}
use fmsgd.Receive.Download.Stored.{NoneAccepted, recipient_loop-NoneAccepted}
use fmsgd.Receive.Serve.{Server, ask, handle_conn}
use fmsgd.Receive.Serve.Asked.{ask-read_version_or_challenge}
use fmsgd.Receive.Replies.{IsReply, handle_conn-IsReply}
use fmsgd.Tests.{config, bob, carol, thirty_two}
use fmsgd.Tests.Header.{sample, idle}
use fmsgd.Tests.Receive.{disk, holder, original}

-- An address with limits, one of them negative.
abbrev mailbox : AddressDetail
mailbox = record {
  accepting_new = true;
  limit_recv_size_total = pos 100000;
  limit_recv_size_per_1d = negsuc 0;
  limit_recv_count_per_1d = pos 20;
  recv_size_total = pos 500;
  recv_size_per_1d = pos 40;
  recv_count_per_1d = pos 3;
}

original-IsCounted : IsCounted original mailbox
unfolding stored_size stored_sizes has
original-IsCounted = record {
  messages = record { count = 3; is_count = refl; is_small = omega arith };
  today = record { count = 40; is_count = refl; is_small = omega arith };
  whole = record { count = 500; is_count = refl; is_small = omega arith };
}

validate_msg_recv_for_addr_iff_example :
    (validate_msg_recv_for_addr original (some false) (some (some mailbox)) ≡ some 200) ↔ (
      (some false ≡ some false)
      × (d : AddressDetail) × (some (some mailbox) ≡ some (some d))
      × IsOpen original d)
validate_msg_recv_for_addr_iff_example =
    validate_msg_recv_for_addr_iff original (some false) (some (some mailbox)) (λ d e.
      subst (IsCounted original) (Option.some-injective _ _ (Option.some-injective _ _ e))
        original-IsCounted)

-- Directories that take everything, and a store that fails.
abbrev inbox : Inbox
inbox = record {
  received = λ hash a. some false;
  detail = λ a. some (some mailbox);
  make_dir = λ a. true;
  unique_path = λ h a. codes "in";
  copy_payload = λ h path. true;
  preserve = λ h path. some thirty_two;
  persist = λ attachments path. (attachments, true);
  store_msg_detail = λ h outcome. false;
  create_temp = λ i. some (codes "temp");
}

abbrev both_accepted : Progress
both_accepted = record {
  header = record original { stored_wire = thirty_two };
  codes = 200 ∷ 200 ∷ [];
  accepted_to = bob ∷ [];
  accepted_add_to = carol ∷ [];
  primary = codes "in";
}

both-run :
    recipient_loop inbox [] 1 (bob ∷ carol ∷ []) (
      some (record {
        header = original;
        codes = [];
        accepted_to = [];
        accepted_add_to = [];
        primary = [];
      }))
    ≡ some both_accepted
unfolding recipient_loop and_then recipient_step on_code copied first_accepted with_wire
    with_attachments accepted_by validate_msg_recv_for_addr code_of_duplicate code_of_detail
    recv_limit_exceeded is_exceeded code_of_limit add64 stored_size stored_sizes has
both-run = refl

not-stored : (store_accepted_message inbox both_accepted []).1 ≡ false
unfolding store_accepted_message
not-stored = refl

recipient_loop-NoneAccepted_example : NoneAccepted (store_accepted_message inbox both_accepted []).0
recipient_loop-NoneAccepted_example =
    recipient_loop-NoneAccepted inbox (λ h a e. omega (arith, e)) [] 1 (bob ∷ carol ∷ []) original
      both_accepted [] both-run not-stored

-- A host that takes messages for bob and carol, and challenges nobody.
abbrev server : Server
server = record {
  host = holder;
  cfg = config;
  fuel = 3;
  outgoing = λ hash. not_outgoing;
  mode = never;
  participated = λ pid domain. some false;
  second = none;
  inbox = inbox;
  store_header_only = λ h. true;
}

handle_conn-IsReply_example :
    IsReply server
      (record idle { input = encode sample })
      (handle_conn server (record idle { input = encode sample })).0.sent
handle_conn-IsReply_example =
    handle_conn-IsReply server (λ hash bs e. cc) (record idle { input = encode sample }) refl refl

header_hash-length : length (get_header_hash disk original).1 ≡ 32
unfolding get_header_hash
header_hash-length = refl

ask-read_version_or_challenge_example :
    (ask disk original (record idle { input = thirty_two ++ 7 ∷ [] })
      ≡ ok
          (record (get_header_hash disk original).0 {
            challenge_hash = thirty_two;
            challenge_completed = true;
          })
          (record idle {
            input = 7 ∷ [];
            sent = (idle.sent ++ 255 ∷ []) ++ (get_header_hash disk original).1;
          }))
    × (read_version_or_challenge
          (λ hash. answer thirty_two)
          blank
          (record idle { input = 255 ∷ ((get_header_hash disk original).1 ++ 7 ∷ []) })
        ≡ ok (true, blank) (record idle { input = 7 ∷ []; sent = idle.sent ++ thirty_two }))
ask-read_version_or_challenge_example =
    ask-read_version_or_challenge disk original blank (λ hash. answer thirty_two) thirty_two
      (7 ∷ []) idle idle refl refl header_hash-length refl refl
