-- ===== src/Receive/Recipients.antt =====
-- The recipient lists of a header (cmd/fmsgd/host.go): `readToRecipients` and
-- `readAddToRecipients`.
use fmsgd.Prelude.{
  ℕ, zero, suc, Bool, false, not, ◌||◌, List, [], ◌∷◌, ◌++◌, some, ◌==◌, if◌then◌else◌, Bytes,
  bytes_eq,
}
use fmsgd.Conn.{
  no_recipients, duplicate_recipient, add_to_without_pid, bad_add_to_from,
  add_to_from_not_participant, no_add_to, duplicate_add_to, Outcome, ok, err, panicked, M, pure,
  fail, ◌>>=◌, reject,
}
use fmsgd.Conn.Read.{read_byte, read_address}
use fmsgd.Text.{Unicode}
use fmsgd.Wire.{Address, to_string, Header, has, flag_has_add_to, flag_has_pid}
use fmsgd.Receive.{reject_code_invalid, contains}

-- The key by which addresses are compared: `strings.ToLower(addr.ToString())`.
unfoldable pub address_key : Unicode → Address → Bytes
unfolding to_string
address_key u a = u.to_lower (to_string a)

-- The loop of `readToRecipients` with `num` addresses to go. A duplicate is an error without a
-- response code.
unfoldable pub read_to_loop : Unicode → ℕ → List Bytes → List Address → M (List Address)
read_to_loop u zero seen to = pure to
read_to_loop u (suc num) seen to = do
  a ← read_address u
  let key = address_key u a
  if contains key seen
      then fail duplicate_recipient
      else read_to_loop u num (key ∷ seen) (to ++ a ∷ [])

unfoldable pub read_to_recipients : Unicode → Header → M Header
read_to_recipients u h = do
  num ← read_byte
  if num == 0
      then reject reject_code_invalid no_recipients
      else (do to ← read_to_loop u num [] h.to; pure (record h { to = to }))

-- The loop of `readAddToRecipients`; here a duplicate is answered with code 1.
unfoldable pub read_add_to_loop : Unicode → ℕ → List Bytes → List Address → M (List Address)
read_add_to_loop u zero seen add_to = pure add_to
read_add_to_loop u (suc num) seen add_to = do
  a ← read_address u
  let key = address_key u a
  if contains key seen
      then reject reject_code_invalid duplicate_add_to
      else read_add_to_loop u num (key ∷ seen) (add_to ++ a ∷ [])

unfoldable pub is_address_in : Unicode → Bytes → List Address → Bool
unfolding address_key
is_address_in u key [] = false
is_address_in u key (a ∷ as_) = bytes_eq (address_key u a) key || is_address_in u key as_

-- A failed read of the add-to-from address is answered with code 1.
unfoldable pub or_reject : {A : Type 0} → Outcome A → Outcome A
unfolding reject
or_reject (ok a c) = ok a c
or_reject (err e c) = reject reject_code_invalid bad_add_to_from c
or_reject (panicked c) = panicked c

unfoldable pub read_adder : Unicode → M Address
unfolding or_reject
read_adder u c = or_reject (read_address u c)

unfoldable pub read_add_to_list : Unicode → Header → M Header
read_add_to_list u h = do
  count ← read_byte
  if count == 0
      then reject reject_code_invalid no_add_to
      else (do add_to ← read_add_to_loop u count [] h.add_to; pure (record h { add_to = add_to }))

unfoldable pub read_add_to_recipients : Unicode → Header → M Header
read_add_to_recipients u h =
    if not (has h.flags flag_has_add_to)
    then pure h
    else if not (has h.flags flag_has_pid)
    then reject reject_code_invalid add_to_without_pid
    else (do
      a ← read_adder u
      if bytes_eq (address_key u h.from) (address_key u a) || is_address_in u (address_key u a) h.to
          then read_add_to_list u (record h { add_to_from = some a })
          else reject reject_code_invalid add_to_from_not_participant)
