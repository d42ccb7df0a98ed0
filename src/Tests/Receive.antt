-- ===== src/Tests/Receive.antt =====
-- A header with recipients added, a reply, and a host that holds their parent.
use fmsgd.Prelude.{◌≡◌, ◌↔◌, ◌⊎◌, refl, Bool, true, false, arith, [], ◌∷◌, none, some, bytes_eq}
use fmsgd.Text.{codes}
use fmsgd.Conn.{ok}
use fmsgd.Wire.{Header, has, to_string}
use fmsgd.Wire.Encode.{encode}
use fmsgd.Wire.Hash.{
  Files, hash_payload, hash_attachments, message_bytes, keep_hash, kept_or_new, get_message_hash,
}
use fmsgd.Wire.Hash.Cached.{get_message_hash-again}
use fmsgd.Receive.{has_domain_recipient}
use fmsgd.Receive.Version.{not_outgoing}
use fmsgd.Receive.Recipients.{address_key, is_address_in}
use fmsgd.Receive.WireHeader.{blank}
use fmsgd.Receive.Host.{
  Host, by_id, parent_of, is_stored, is_message_retrievable, is_original_participant,
}
use fmsgd.Receive.Parents.{
  handle_add_to_path, on_parent, check_parent, with_payload_of, with_files, is_time_travel,
  record_batch, validate_pid_reply_path,
}
use fmsgd.Receive.Parents.Retrievable.{
  IsChain, ends, linked, IsRetrievable, is_message_retrievable_iff,
}
use fmsgd.Receive.Parents.Reply.{IsReplyTo, validate_pid_reply_path_iff}
use fmsgd.Receive.Parents.AddTo.{IsBatch, IsWhole, handle_add_to_path_sound}
use fmsgd.Receive.Admit.{read_header}
use fmsgd.Receive.Answers.{codes_of, Replied}
use fmsgd.Receive.Answers.Checks.{read_header-Replied}
use fmsgd.Tests.{config, alice, bob, thirty_two}
use fmsgd.Tests.Header.{sample, idle}

abbrev pub disk : Files
disk = record {
  sha256 = λ written. thirty_two;
  content = λ path. some (1 ∷ 2 ∷ 3 ∷ []);
  inflate = λ bytes. none;
}

abbrev pub original : Header
original = record blank { from = alice; to = bob ∷ []; timestamp = 800; filepath = codes "f" }

abbrev pub holder : Host
holder = record {
  files = disk;
  is_file = λ path. true;
  msg_id_by_hash = λ pid. some 5;
  msg_by_id = λ id. some (some original);
  msg_by_batch_hash = λ pid. some none;
  batch_recorded = λ id digest. some false;
  skip_authorised_ips = true;
  remote_host = none;
  parse_ip = λ text. none;
  authorised_ips = λ domain. none;
  ip_equal = bytes_eq;
}

-- A host without messages.
abbrev empty : Host
empty = record holder { msg_id_by_hash = λ pid. some 0; msg_by_id = λ id. some none }

abbrev pub adding : Header
adding = record sample { flags = 3; size = 3; attachments = [] }

abbrev replying : Header
replying = record sample { flags = 1; add_to = []; add_to_from = none }

original-IsChain : IsChain empty 1 (some original)
unfolding parent_of by_id
original-IsChain = linked ends

is_message_retrievable_iff_example :
    (b : Bool) × (is_message_retrievable empty 3 (some original) ≡ some b)
    × ((b ≡ true) ↔ IsRetrievable empty (some original))
is_message_retrievable_iff_example =
    is_message_retrievable_iff empty 1 3 (some original) original-IsChain (omega arith)

replying-pid : has replying.flags 1 ≡ true
unfolding has
replying-pid = refl

validate_pid_reply_path_iff_example :
    (validate_pid_reply_path config holder 3 replying idle ≡ ok tt idle)
    ↔ ((idle ≡ idle) × ((parent : Header) × IsReplyTo config holder 3 replying parent))
validate_pid_reply_path_iff_example =
    validate_pid_reply_path_iff config holder 3 replying idle idle refl replying-pid

abbrev added_header : Header
added_header = record adding {
  filepath = codes "f";
  message_hash = some thirty_two;
  initial_response_code = 65;
}

adding-run : handle_add_to_path config holder 3 adding idle ≡ ok added_header idle
unfolding handle_add_to_path on_parent check_parent with_payload_of with_files is_time_travel
    record_batch is_message_retrievable is_stored parent_of by_id is_original_participant
    has_domain_recipient address_key is_address_in to_string get_message_hash kept_or_new keep_hash
    message_bytes hash_payload hash_attachments has bytes_eq
adding-run = refl

handle_add_to_path_sound_example :
    (idle ≡ idle)
    × (IsBatch config holder 3 adding added_header ⊎ IsWhole config holder 3 adding added_header)
handle_add_to_path_sound_example =
    handle_add_to_path_sound config holder 3 adding added_header idle idle refl adding-run

read_header-Replied_example :
    Replied codes_of []
      (read_header config holder 3 (λ hash. not_outgoing) (record idle { input = encode sample }))
read_header-Replied_example =
    read_header-Replied (λ hash. not_outgoing) (λ hash bs h. cc) config holder 3
      (record idle { input = encode sample }) refl

hashed-run :
    get_message_hash disk adding
    ≡ some (record adding { message_hash = some thirty_two }, thirty_two)
unfolding get_message_hash kept_or_new keep_hash message_bytes hash_payload hash_attachments has
hashed-run = refl

get_message_hash-again_example :
    get_message_hash empty.files (record adding { message_hash = some thirty_two })
    ≡ some (record adding { message_hash = some thirty_two }, thirty_two)
get_message_hash-again_example =
    get_message_hash-again disk empty.files adding
      (record adding { message_hash = some thirty_two }) thirty_two hashed-run
