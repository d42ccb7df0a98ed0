-- ===== src/Tests/Sender.antt =====
-- A database with rows of one message, a network, and the exchanges on it.
use fmsgd.Prelude.{
  ◌≡◌, inl, inr, refl, ◌-◌, true, false, List, [], ◌∷◌, ◌++◌, Option, none, some, ltb, length, min,
  Bytes, bytes_eq, All, arith, ap,
}
use fmsgd.Prelude.Int.{pos}
use fmsgd.Text.{codes}
use fmsgd.Conn.{Conn, ok}
use fmsgd.Wire.{has, flag_has_add_to}
use fmsgd.Wire.Encode.{encode}
use fmsgd.Receive.{contains}
use fmsgd.Receive.Delivery.{local_recipients, append_local}
use fmsgd.Sender.Rows.{msg_to, msg_add_to, Row, Schedule, lock_pending_recipients, update_recipient}
use fmsgd.Sender.Rows.Once.{lock_pending_recipients-update_recipient}
use fmsgd.Sender.Exchange.{told, domain_recips, exchange}
use fmsgd.Sender.Exchange.Answered.{IsSaid, exchange_sound}
use fmsgd.Sender.Exchange.Agreement.{exchange-local_recipients}
use fmsgd.Sender.Deliver.{PendingTarget, Database, Network, deliver_unit}
use fmsgd.Sender.Deliver.Pairs.{IsClean, deliver_unit-IsClean}
use fmsgd.Sender.Targets.{find_pending_targets}
use fmsgd.Sender.Targets.Distinct.{
  IsDistinct, IsRowCovered, IsNoticeCovered, find_pending_targets_lem,
}
use fmsgd.Sender.Message.{Batch, StoredMsg, Loads, deliver_message}
use fmsgd.Sender.Message.Allowed.{IsAllowed, deliver_message-IsAllowed}
use fmsgd.Tests.{ascii, config, bob, thirty_two}
use fmsgd.Tests.Header.{sample, idle}
use fmsgd.Tests.Receive.{disk, original, adding}

-- Times as plain numbers, and one wait for every attempt.
abbrev schedule : Schedule
schedule = record {
  now = 1000;
  retry_interval = 20;
  retry_max_age = 86400;
  sub = λ a b. a - b;
  mul = λ a b. a;
  power_of_two = λ n. 1;
  least = min;
  gt = λ a b. ltb b a;
}

abbrev to_bob : Row
to_bob = record {
  msg_id = 5;
  batch_id = 0;
  addr = codes "@bob@b.com";
  time_delivered = none;
  time_last_attempt = none;
  response_code = none;
  attempt_count = 0;
}

lock_pending_recipients-update_recipient_example :
    (contains (codes "@bob@b.com") (
        lock_pending_recipients ascii schedule msg_to 5
          (codes "b.com")
          0
          true
          900
          (λ r. true)
          (update_recipient 5 1000 (codes "@bob@b.com") (pos 200) true (to_bob ∷ [])))
      ≡ false)
    × (contains (codes "@al@b.com") (
          lock_pending_recipients ascii schedule msg_to 5
            (codes "b.com")
            0
            true
            900
            (λ r. true)
            (update_recipient 5 1000 (codes "@bob@b.com") (pos 200) true (to_bob ∷ [])))
        ≡ contains (codes "@al@b.com") (
            lock_pending_recipients ascii schedule msg_to 5
              (codes "b.com")
              0
              true
              900
              (λ r. true)
              (to_bob ∷ [])))
lock_pending_recipients-update_recipient_example =
    lock_pending_recipients-update_recipient ascii schedule msg_to (codes "b.com") 0 900 5 1000 true
      (λ r. true) (codes "@bob@b.com") (codes "@al@b.com") (pos 200) true (to_bob ∷ []) (inl refl)
      (λ e. omega (arith, ap length e))

-- The other host answers 65 and a code for each of carol, and bob in both lists.
abbrev answering : Conn
answering = record idle { input = 65 ∷ 200 ∷ 100 ∷ 200 ∷ [] }

sample-adds : has sample.flags flag_has_add_to ≡ true
unfolding has
sample-adds = refl

abbrev read_content : Bytes → Option Bytes
read_content path = some (1 ∷ 2 ∷ 3 ∷ [])

exchange-local_recipients_example :
    exchange read_content sample (length (domain_recips ascii (codes "b.com") [] sample)) answering
    ≡ ok
        (told 65 (200 ∷ 100 ∷ 200 ∷ []))
        (record answering { input = []; sent = [] ++ (encode sample ++ []) })
unfolding local_recipients append_local bytes_eq
exchange-local_recipients_example =
    exchange-local_recipients read_content config [] sample 65 [] (200 ∷ 100 ∷ 200 ∷ []) answering
      refl (λ e. cc sample-adds) refl (inr (refl, sample-adds, refl)) refl

exchange_sound_example :
    IsSaid sample
      (length (domain_recips ascii (codes "b.com") [] sample))
      (65 ∷ 200 ∷ 100 ∷ 200 ∷ [])
      (told 65 (200 ∷ 100 ∷ 200 ∷ []))
      []
exchange_sound_example =
    exchange_sound read_content sample (length (domain_recips ascii (codes "b.com") [] sample))
      answering (record answering { input = []; sent = [] ++ (encode sample ++ []) })
      (told 65 (200 ∷ 100 ∷ 200 ∷ [])) exchange-local_recipients_example

abbrev target : PendingTarget
target = record { msg_id = 5; domain = codes "b.com" }

abbrev database : Database
database = record {
  begins = true;
  rows = λ table. some (to_bob ∷ []);
  free = λ table r. true;
  is_sent = true;
  since = λ table batch. 900;
  notify_row = λ batch. some 7;
  commits = true;
}

abbrev network : Network
network = record {
  lookup_authorised_ips = λ domain. some (codes "1" ∷ codes "2" ∷ []);
  dial = λ ip. some (answering, ip);
  files = disk;
}

deliver_unit-IsClean_example :
    IsClean (deliver_unit ascii schedule database target network sample msg_add_to 2).events
deliver_unit-IsClean_example =
    deliver_unit-IsClean ascii schedule database target network sample msg_add_to 2

find_pending_targets_lem_example :
    (ts : List PendingTarget) × (find_pending_targets ascii
        (codes "a.com")
        (some ((5, codes "@bob@b.com") ∷ ((5, codes "@alice@a.com") ∷ [])))
        (some ((5, codes "B.com") ∷ []))
      ≡ some ts)
    × All (λ t. ascii.equal_fold t.domain (codes "a.com") ≡ false) ts
    × IsDistinct ascii (codes "a.com") ts
    × All
        (IsRowCovered ascii (codes "a.com") ts)
        ((5, codes "@bob@b.com") ∷ ((5, codes "@alice@a.com") ∷ []))
    × All (IsNoticeCovered ascii (codes "a.com") ts) ((5, codes "B.com") ∷ [])
find_pending_targets_lem_example =
    find_pending_targets_lem ascii (codes "a.com")
      ((5, codes "@bob@b.com") ∷ ((5, codes "@alice@a.com") ∷ [])) ((5, codes "B.com") ∷ [])

abbrev stored : StoredMsg
stored = record { wire = some original; parent_pid = thirty_two; is_terminal = false }

abbrev batch : Batch
batch = record { id = 2; recipients = bob ∷ []; prepared = some adding }

abbrev loads : Loads
loads = record {
  load = some (stored, batch ∷ []);
  is_stored_msg_terminal = λ pid. some false;
  parent_pending_for_domain = λ pid domain. some false;
}

deliver_message-IsAllowed_example :
    All
      (IsAllowed stored loads (codes "b.com"))
      (deliver_message ascii (codes "a.com") loads target)
deliver_message-IsAllowed_example =
    deliver_message-IsAllowed ascii (codes "a.com") loads target stored (batch ∷ []) refl
