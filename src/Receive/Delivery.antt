-- ===== src/Receive/Delivery.antt =====
-- The decisions before a payload is read (cmd/fmsgd/host.go): `shouldChallenge`, `storedSize`,
-- `localRecipients`, `allLocalRecipientsHaveMessageHash` and `resolvePostChallengeCode`.
pub mod Local
use fmsgd.Prelude.{
  ℕ, ◌+◌, Bool, true, false, ◌&&◌, ◌||◌, not, List, [], ◌∷◌, ◌++◌, Option, none, some, ◌==◌,
  if◌then◌else◌, length, Bytes,
}
use fmsgd.Text.{Unicode}
use fmsgd.Wire.{
  Address, AttachmentHeader, Header, has, flag_has_pid, flag_deflate, attachment_deflate,
}
use fmsgd.Receive.{
  Config, accept_code_add_to, accept_code_skip_data, accept_code_continue, reject_code_duplicate,
}

-- `FMSG_CHALLENGE_MODE`.
pub data ChallengeMode : Type 0 where
  always has_not_participated never unknown : ChallengeMode

-- `shouldChallenge`; `participated` is the store's answer for a pid and a domain. None is an error.
unfoldable pub should_challenge :
    ChallengeMode → (Bytes → Bytes → Option Bool) → Bytes → Header → Option Bool
should_challenge never participated domain h = some false
should_challenge always participated domain h = some true
should_challenge has_not_participated participated domain h =
    if not (has h.flags flag_has_pid) || length h.pid == 0
    then some true
    else elim (participated h.pid domain) [ none ↦ none | some p ↦ some (not p) ]
should_challenge unknown participated domain h = none

-- `storedSize`. The sum of at most 256 sizes of 32 bits does not reach 2^63.
unfoldable pub stored_sizes : List AttachmentHeader → ℕ → ℕ
stored_sizes [] size = size
stored_sizes (a ∷ as_) size =
    stored_sizes as_ (size + (if has a.flags attachment_deflate then a.expanded_size else a.size))

unfoldable pub stored_size : Header → ℕ
stored_size h =
    stored_sizes h.attachments (if has h.flags flag_deflate then h.expanded_size else h.size)

-- The loops of `localRecipients`, which append to the list so far.
unfoldable pub append_local : Config → List Address → List Address → List Address
append_local cfg [] addrs = addrs
append_local cfg (a ∷ as_) addrs =
    append_local cfg as_
      (if cfg.unicode.equal_fold a.domain cfg.domain then addrs ++ a ∷ [] else addrs)

-- `localRecipients`: the recipients here, and how many of them come from `to`.
unfoldable pub local_recipients : Config → Header → List Address × ℕ
local_recipients cfg h =
    let from_to = append_local cfg h.to [] in (append_local cfg h.add_to from_to, length from_to)

-- The loop of `allLocalRecipientsHaveMessageHash`; `received` is the store's answer for the hash.
unfoldable pub all_received : (Address → Option Bool) → List Address → Option Bool
all_received received [] = some true
all_received received (a ∷ as_) =
    let others = all_received received as_ in
    elim (received a) [ none ↦ none | some got ↦ if got then others else some false ]

unfoldable pub all_local_recipients_have_message_hash :
    (Address → Option Bool) → List Address → Option Bool
all_local_recipients_have_message_hash received addrs =
    if length addrs == 0 then some false else all_received received addrs

-- `resolvePostChallengeCode`.
unfoldable pub resolve_post_challenge_code : ℕ → Bool → Bool → ℕ
resolve_post_challenge_code initial_code challenge_completed all_local_dup =
    if initial_code == accept_code_add_to
    then accept_code_add_to
    else if challenge_completed && all_local_dup
    then reject_code_duplicate
    else if initial_code == accept_code_skip_data
    then accept_code_skip_data
    else accept_code_continue
