-- ===== src/Receive/Download/Codes.antt =====
-- The codes of a download (cmd/fmsgd/host.go): one for each recipient here.
use fmsgd.Prelude.{
  ◌≡◌, refl, ap, ℕ, zero, suc, ◌+◌, Bool, true, false, not, ◌&&◌, List, [], ◌∷◌, Option, none, some,
  arith, Bool-cases, inl, inr, length, length-append, Bytes, ◌==◌,
}
use fmsgd.Prelude.Options.{Gives, none-Gives, some-Gives, if-Gives, map-Gives}
use fmsgd.Wire.{Address, AttachmentHeader, Header}
use fmsgd.Receive.{reject_code_accept, reject_code_user_undisclosed}
use fmsgd.Receive.Limits.{validate_msg_recv_for_addr}
use fmsgd.Receive.Download.{
  Inbox, Progress, refused_with, accepted_by, with_wire, with_attachments, first_accepted, copied,
  on_code, recipient_step, and_then, recipient_loop, not_stored, store_accepted_message,
}

module _ (inbox : Inbox) where
  accepted_by-codes :
      (from_to : Bool) (a : Address) (p : Progress)
      → length (accepted_by inbox from_to a p).codes ≡ suc (length p.codes)
  unfolding accepted_by
  accepted_by-codes true a p = omega (arith, length-append p.codes (reject_code_accept ∷ []))
  accepted_by-codes false a p = omega (arith, length-append p.codes (reject_code_accept ∷ []))

  refused_with-codes :
      (code : ℕ) (p : Progress) → length (refused_with inbox code p).codes ≡ suc (length p.codes)
  unfolding refused_with
  refused_with-codes code p = omega (arith, length-append p.codes (code ∷ []))

  with_attachments-codes :
      (from_to : Bool) (a : Address) (path : Bytes) (p : Progress)
      (kept : List AttachmentHeader × Bool)
      → length (with_attachments inbox from_to a path p kept).codes ≡ suc (length p.codes)
  unfolding with_attachments
  with_attachments-codes from_to a path p (attachments, true) =
      accepted_by-codes from_to a
        (record p { header = record p.header { attachments = attachments }; primary = path })
  with_attachments-codes from_to a path p (attachments, false) =
      omega (arith, length-append p.codes (reject_code_user_undisclosed ∷ []))

  abbrev OneMore : ℕ → Progress → Type 0
  OneMore n q = length q.codes ≡ suc n

  first_accepted-OneMore :
      (from_to : Bool) (a : Address) (path : Bytes) (p : Progress) (h : Option Header)
      → Gives (OneMore (length p.codes)) (first_accepted inbox from_to a path p h)
  unfolding first_accepted
  first_accepted-OneMore from_to a path p none = none-Gives
  first_accepted-OneMore from_to a path p (some h) = some-Gives (
      with_attachments-codes from_to a path (record p { header = h })
        (inbox.persist h.attachments path))

  copied-OneMore :
      (from_to : Bool) (a : Address) (path : Bytes) (p : Progress)
      → Gives (OneMore (length p.codes)) (copied inbox from_to a path p)
  unfolding copied
  copied-OneMore from_to a path p =
      if-Gives (not (inbox.copy_payload p.header path))
        (some-Gives (refused_with-codes reject_code_user_undisclosed p))
        (if-Gives (length p.primary == 0)
          (first_accepted-OneMore from_to a path p (with_wire inbox path p.header))
          (some-Gives (accepted_by-codes from_to a p)))

  on_code-OneMore :
      (from_to : Bool) (a : Address) (p : Progress) (code : Option ℕ)
      → Gives (OneMore (length p.codes)) (on_code inbox from_to a p code)
  unfolding on_code
  on_code-OneMore from_to a p none = none-Gives
  on_code-OneMore from_to a p (some code) =
      if-Gives (not (code == reject_code_accept)) (some-Gives (refused_with-codes code p)) (
        if-Gives (not (inbox.make_dir a)) none-Gives
          (copied-OneMore from_to a (inbox.unique_path p.header a) p))

  recipient_step-OneMore :
      (dup_hash : Bytes) (from_to : Bool) (a : Address) (p : Progress)
      → Gives (OneMore (length p.codes)) (recipient_step inbox dup_hash from_to a p)
  unfolding recipient_step
  recipient_step-OneMore dup_hash from_to a p =
      on_code-OneMore from_to a p
        (validate_msg_recv_for_addr p.header (inbox.received dup_hash a) (inbox.detail a))

  pub and_then-Gives {κ} :
      {P Q : Progress → Type κ} (f : Progress → Option Progress) (next : Option Progress)
      → Gives P next
      → ((p : Progress) → P p → Gives Q (f p))
      → Gives Q (and_then inbox f next)
  unfolding and_then
  and_then-Gives f none g step = none-Gives
  and_then-Gives f (some p) g step = step p (g.given p refl)

  -- The loop that ends without an error has added one code for each recipient.
  pub recipient_loop-codes :
      (dup_hash : Bytes) (num_to : ℕ) (as_ : List Address) (n : ℕ) (next : Option Progress)
      → Gives (λ p. length p.codes ≡ n) next
      → Gives (λ q. length q.codes ≡ n + length as_) (recipient_loop inbox dup_hash num_to as_ next)
  unfolding recipient_loop
  recipient_loop-codes dup_hash num_to [] n next g = map-Gives (λ p e. omega (arith, e)) g
  recipient_loop-codes dup_hash zero (a ∷ as_) n next g =
      map-Gives (λ p e. omega (arith, e))
        (recipient_loop-codes dup_hash zero as_ (suc n)
          (and_then inbox (recipient_step inbox dup_hash false a) next)
          (and_then-Gives (recipient_step inbox dup_hash false a) next g
            (λ p e. rw (← e) (recipient_step-OneMore dup_hash false a p))))
  recipient_loop-codes dup_hash (suc k) (a ∷ as_) n next g =
      map-Gives (λ p e. omega (arith, e))
        (recipient_loop-codes dup_hash k as_ (suc n)
          (and_then inbox (recipient_step inbox dup_hash true a) next)
          (and_then-Gives (recipient_step inbox dup_hash true a) next g
            (λ p e. rw (← e) (recipient_step-OneMore dup_hash true a p))))

  not_stored-codes : (cs : List ℕ) → length (not_stored inbox cs) ≡ length cs
  unfolding not_stored
  not_stored-codes [] = refl
  not_stored-codes (c ∷ cs) = ap suc (not_stored-codes cs)

  pub store_accepted_message-codes :
      (p : Progress) (outcome : List (Bytes × ℕ))
      → length (store_accepted_message inbox p outcome).0 ≡ length p.codes
  unfolding store_accepted_message
  store_accepted_message-codes p outcome =
      elim (Bool-cases (length p.accepted_to == 0 && length p.accepted_add_to == 0)) [
        | inl e ↦ rw e refl
        | inr e ↦
            elim (Bool-cases
              (inbox.store_msg_detail (record p.header { filepath = p.primary }) outcome)) [
                | inl k ↦ rw (e, k) refl
                | inr k ↦ rw (e, k) (not_stored-codes p.codes)
              ]
      ]
