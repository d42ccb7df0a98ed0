-- ===== src/Receive/Parents/Retrievable.antt =====
-- `isMessageRetrievable` (cmd/fmsgd/host.go) on the chain of parents of a message.
use fmsgd.Prelude.{
  ℕ, zero, suc, ◌≤◌, ◌≡◌, ◌≢◌, ◌↔◌, refl, Bool, true, false, Bool-cases, inl, inr, Option, none,
  some, arith, ◌==◌, length,
}
use fmsgd.Wire.{Header}
use fmsgd.Receive.Host.{Host, is_stored, parent_of, is_message_retrievable}

module _ (host : Host) where
  -- A message whose chain of parents ends: it has at most `n` messages.
  pub data IsChain : ℕ → Option Header → Type 0 where
    ends : {n : ℕ} → IsChain n none
    linked : {n : ℕ} {m : Header} → IsChain n (parent_of host m) → IsChain (suc n) (some m)

  -- A message whose data is at hand, its own or through the messages that its pid leads to.
  pub data IsRetrievable : Option Header → Type 0 where
    stored : {m : Header} → is_stored host m ≡ true → IsRetrievable (some m)
    above :
        {m : Header} → length m.pid ≢ 0 → IsRetrievable (parent_of host m) → IsRetrievable (some m)

  not-retrievable :
      (m : Header)
      → is_stored host m ≡ false
      → (length m.pid == 0) ≡ true
      → IsRetrievable (some m)
      → ⊥
  not-retrievable m unstored root (stored here) = cc
  not-retrievable m unstored root (above p up) = ground arith

  not-above :
      (m : Header)
      → is_stored host m ≡ false
      → IsRetrievable (some m)
      → IsRetrievable (parent_of host m)
  not-above m unstored (stored here) = absurd cc
  not-above m unstored (above p up) = up

  -- With fuel for the messages of a chain that ends, `isMessageRetrievable` returns, and says true
  -- exactly for a message whose data is at hand.
  pub is_message_retrievable_iff :
      (n fuel : ℕ) (m : Option Header)
      → IsChain n m
      → n ≤ fuel
      → (b : Bool) × (is_message_retrievable host fuel m ≡ some b) × ((b ≡ true) ↔ IsRetrievable m)
  unfolding is_message_retrievable
  is_message_retrievable_iff n fuel none chain h = (false, refl, (λ e. absurd cc, λ r. elim r [ ]))
  is_message_retrievable_iff zero fuel (some m) chain h = elim chain [ ]
  is_message_retrievable_iff (suc n) zero (some m) (linked up) h = absurd (omega arith)
  is_message_retrievable_iff (suc n) (suc fuel) (some m) (linked up) h =
      elim (Bool-cases (is_stored host m)) [
        | inl e ↦ rw e (true, refl, (λ p. stored e, λ r. refl))
        | inr e ↦ elim (Bool-cases (length m.pid == 0)) [
          | inl f ↦ rw (e, f) (false, refl, (λ p. absurd cc, λ r. absurd (not-retrievable m e f r)))
          | inr f ↦
              let (b, run, (sound, complete)) =
                is_message_retrievable_iff n fuel (parent_of host m) up (omega arith) in
              rw (e, f)
                (b, run, (λ p. above (ground arith) (sound p), λ r. complete (not-above m e r)))
        ]
      ]
