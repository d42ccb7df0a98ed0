-- ===== src/Sender/Rows/Once.antt =====
-- A recipient whose row is settled is not sent to again (cmd/fmsgd/sender.go).
use fmsgd.Prelude.{
  ◌≡◌, ◌≢◌, refl, sym, ◌∙◌, bytes_eq_iff, ◌⊎◌, inl, inr, ℕ, Bool, true, false, ◌&&◌, List, [], ◌∷◌,
  arith, ◌==◌, if◌then◌else◌, Bool-cases, Bytes, bytes_eq,
}
use fmsgd.Prelude.Int.{ℤ}
use fmsgd.Text.{Unicode}
use fmsgd.Text.Search.{last_index}
use fmsgd.Receive.{contains}
use fmsgd.Sender.Rows.{
  Table, msg_to, msg_add_to, Row, is_retryable, Schedule, is_code_open, is_undelivered, is_pending,
  is_in_unit, domain_of, is_at, lock_pending_recipients, set_outcome, update_recipient,
}

-- An outcome behind which a row is settled: it is delivered, or its code is not one to retry.
abbrev pub IsSettling : ℤ → Bool → Type 0
IsSettling code delivered = (delivered ≡ true) ⊎ (is_retryable code ≡ false)

settled-is_pending :
    (s : Schedule) (since now : ℕ) (code : ℤ) (delivered : Bool) (r : Row)
    → IsSettling code delivered
    → is_pending s since (set_outcome now code delivered r) ≡ false
unfolding is_pending set_outcome is_undelivered is_code_open
settled-is_pending s since now code true r h = refl
settled-is_pending s since now code false r (inl e) = ground arith
settled-is_pending s since now code false r (inr e) = rw e (ground arith)

is_in_unit-msg_id :
    (table : Table) (id batch : ℕ) (r : Row)
    → is_in_unit table id batch r ≡ true
    → (r.msg_id == id) ≡ true
unfolding is_in_unit
is_in_unit-msg_id msg_to id batch r e = e
is_in_unit-msg_id msg_add_to id batch r e = ground arith

set_outcome-addr :
    (now : ℕ) (code : ℤ) (delivered : Bool) (r : Row)
    → (set_outcome now code delivered r).addr ≡ r.addr
unfolding set_outcome
set_outcome-addr now code true r = refl
set_outcome-addr now code false r = refl

module _ (u : Unicode) (s : Schedule) (table : Table) (domain : Bytes) (batch since : ℕ) where
  -- The condition under which a row is locked.
  unfoldable is_locked : ℕ → Bool → (Row → Bool) → Row → Bool
  is_locked id sent free r =
      is_in_unit table id batch r
      && (sent
          && (is_pending s since r
              && (free r && is_at u domain (domain_of r.addr (last_index b'@' r.addr)))))

  locked_addr :
      (id : ℕ) (sent : Bool) (free : Row → Bool) (addr : Bytes) (r : Row) (rest : List Bytes)
      → (is_locked id sent free r ≡ true → bytes_eq r.addr addr ≡ false)
      → contains addr rest ≡ false
      → contains addr (if is_locked id sent free r then r.addr ∷ rest else rest) ≡ false
  unfolding contains
  locked_addr id sent free addr r rest h e = elim (Bool-cases (is_locked id sent free r)) [
    | inl t ↦ rw (t, h t) e
    | inr f ↦ rw f e
  ]

  updated_addr :
      (id now : ℕ) (sent : Bool) (free : Row → Bool) (addr : Bytes) (code : ℤ) (delivered : Bool)
      (r : Row) (b : Bool)
      → (r.msg_id == id && bytes_eq r.addr addr) ≡ b
      → IsSettling code delivered
      → is_locked id sent free (if b then set_outcome now code delivered r else r) ≡ true
      → bytes_eq (if b then set_outcome now code delivered r else r).addr addr ≡ false
  unfolding is_locked
  updated_addr id now sent free addr code delivered r true e h l =
      absurd (ground (arith, settled-is_pending s since now code delivered r h))
  updated_addr id now sent free addr code delivered r false e h l =
      ground (arith, is_in_unit-msg_id table id batch r)

  -- The rows of other addresses are locked as they were.
  other_addr :
      (id now : ℕ) (sent : Bool) (free : Row → Bool) (addr other : Bytes) (code : ℤ)
      (delivered : Bool) (r : Row) (b : Bool) (after before : List Bytes)
      → (r.msg_id == id && bytes_eq r.addr addr) ≡ b
      → (bytes_eq r.addr addr ≡ true → bytes_eq r.addr other ≡ false)
      → contains other after ≡ contains other before
      → contains other (
          if is_locked id sent free (if b then set_outcome now code delivered r else r)
          then (if b then set_outcome now code delivered r else r).addr ∷ after
          else after)
        ≡ contains other (if is_locked id sent free r then r.addr ∷ before else before)
  unfolding contains
  other_addr id now sent free addr other code delivered r true after before e ne h =
      let unlike : bytes_eq r.addr other ≡ false = ne (ground arith) in
      skipped (is_locked id sent free (set_outcome now code delivered r))
        (set_outcome now code delivered r).addr after
        (rw (set_outcome-addr now code delivered r) unlike)
      ∙ (h ∙ sym (skipped (is_locked id sent free r) r.addr before unlike))
    where
      skipped :
          (b : Bool) (a : Bytes) (rest : List Bytes)
          → bytes_eq a other ≡ false
          → contains other (if b then a ∷ rest else rest) ≡ contains other rest
      skipped true a rest unlike = rw unlike refl
      skipped false a rest unlike = refl
  other_addr id now sent free addr other code delivered r false after before e ne h =
      elim (Bool-cases (is_locked id sent free r)) [ inl t ↦ rw (t, h) refl | inr t ↦ rw t h ]

  settled-lock_pending_recipients :
      (id now : ℕ) (sent : Bool) (free : Row → Bool) (addr : Bytes) (code : ℤ) (delivered : Bool)
      (rows : List Row)
      → IsSettling code delivered
      → contains addr (
          lock_pending_recipients u s table id domain batch sent since free
            (update_recipient id now addr code delivered rows))
        ≡ false
  unfolding lock_pending_recipients update_recipient contains is_locked
  settled-lock_pending_recipients id now sent free addr code delivered [] h = refl
  settled-lock_pending_recipients id now sent free addr code delivered (r ∷ rows) h =
      locked_addr id sent free addr
        (if r.msg_id == id && bytes_eq r.addr addr then set_outcome now code delivered r else r) _
        (updated_addr id now sent free addr code delivered r _ refl h)
        (settled-lock_pending_recipients id now sent free addr code delivered rows h)

  others-lock_pending_recipients :
      (id now : ℕ) (sent : Bool) (free : Row → Bool) (addr other : Bytes) (code : ℤ)
      (delivered : Bool) (rows : List Row)
      → other ≢ addr
      → contains other (
          lock_pending_recipients u s table id domain batch sent since free
            (update_recipient id now addr code delivered rows))
        ≡ contains other (lock_pending_recipients u s table id domain batch sent since free rows)
  unfolding lock_pending_recipients update_recipient is_locked
  others-lock_pending_recipients id now sent free addr other code delivered [] ne = refl
  others-lock_pending_recipients id now sent free addr other code delivered (r ∷ rows) ne =
      other_addr id now sent free addr other code delivered r _ _ _ refl
        (λ same. not_both (Bool-cases (bytes_eq r.addr other)) same)
        (others-lock_pending_recipients id now sent free addr other code delivered rows ne)
    where
      not_both :
          (bytes_eq r.addr other ≡ true) ⊎ (bytes_eq r.addr other ≡ false)
          → bytes_eq r.addr addr ≡ true
          → bytes_eq r.addr other ≡ false
      not_both (inl t) same =
          absurd (ne (sym ((bytes_eq_iff r.addr other).0 t) ∙ (bytes_eq_iff r.addr addr).0 same))
      not_both (inr f) same = f

  -- Behind an update that delivers a message to an address, or records a code that is not one to
  -- retry, no row of that address is locked for the message again, at no later time; and any other
  -- address is locked exactly when it was before the update. The update names no batch: the first
  -- holds of the rows of every batch of the message, also of one that has not been sent to the
  -- address, and of which the rows then wait for nothing.
  pub lock_pending_recipients-update_recipient :
      (id now : ℕ) (sent : Bool) (free : Row → Bool) (addr other : Bytes) (code : ℤ)
      (delivered : Bool) (rows : List Row)
      → IsSettling code delivered
      → other ≢ addr
      → (contains addr (
            lock_pending_recipients u s table id domain batch sent since free
              (update_recipient id now addr code delivered rows))
          ≡ false)
        × (contains other (
              lock_pending_recipients u s table id domain batch sent since free
                (update_recipient id now addr code delivered rows))
            ≡ contains other
                (lock_pending_recipients u s table id domain batch sent since free rows))
  lock_pending_recipients-update_recipient id now sent free addr other code delivered rows h ne = (
    settled-lock_pending_recipients id now sent free addr code delivered rows h,
    others-lock_pending_recipients id now sent free addr other code delivered rows ne,
  )
