-- ===== src/Receive/Delivery/Local.antt =====
-- The recipients of a message at this host (cmd/fmsgd/host.go): `localRecipients` and
-- `allLocalRecipientsHaveMessageHash`.
use fmsgd.Prelude.{
  ◌≡◌, ◌≢◌, ◌↔◌, refl, sym, ap, ◌∙◌, Bool, true, false, List, [], ◌∷◌, ◌++◌, append_assoc,
  append-nil, Option, none, some, arith, ◌==◌, if◌then◌else◌, suc, Option-cases, Bool-cases, inl,
  inr, length, All, ◌⊎◌,
}
use fmsgd.Wire.{Address, Header}
use fmsgd.Receive.{Config}
use fmsgd.Receive.Delivery.{
  append_local, local_recipients, all_received, all_local_recipients_have_message_hash,
}

-- The entries of a list that are for this host's domain, in their order.
unfoldable pub locals : Config → List Address → List Address
locals cfg [] = []
locals cfg (a ∷ as_) =
    let rest = locals cfg as_ in
    if cfg.unicode.equal_fold a.domain cfg.domain then a ∷ rest else rest

append_local_lem :
    (cfg : Config) (as_ addrs : List Address) → append_local cfg as_ addrs ≡ addrs ++ locals cfg as_
unfolding append_local locals
append_local_lem cfg [] addrs = sym (append-nil addrs)
append_local_lem cfg (a ∷ as_) addrs =
    elim (Bool-cases (cfg.unicode.equal_fold a.domain cfg.domain)) [
      | inl e ↦ rw e (
          append_local_lem cfg as_ (addrs ++ a ∷ []) ∙ append_assoc addrs (a ∷ []) (locals cfg as_))
      | inr e ↦ rw e (append_local_lem cfg as_ addrs)
    ]

-- The recipients of this host are those of `to`, in their order, and behind them those of `add to`:
-- an address in both lists is there twice, and the count is where the second list begins.
pub local_recipients_lem :
    (cfg : Config) (h : Header)
    → local_recipients cfg h ≡ (locals cfg h.to ++ locals cfg h.add_to, length (locals cfg h.to))
unfolding local_recipients
local_recipients_lem cfg h =
    rw (append_local_lem cfg h.to [], append_local_lem cfg h.add_to (locals cfg h.to))

all_received_iff :
    (received : Address → Option Bool) (as_ : List Address)
    → (all_received received as_ ≡ some true) ↔ All (λ a. received a ≡ some true) as_
unfolding all_received
all_received_iff received [] = (λ e. tt, λ e. refl)
all_received_iff received (a ∷ as_) =
    let (sound, complete) = all_received_iff received as_ in
    (
      λ p. elim (Option-cases (received a)) [
        | inl e ↦
            let q : ◌≡◌ {A = Option Bool} none (some true) = rw (e, all_received) at p in absurd cc
        | inr (b, e) ↦ elim (Bool-cases b) [
          | inl t ↦
              let q : all_received received as_ ≡ some true = rw (e, all_received, t) at p in
              (e ∙ ap some t, sound q)
          | inr f ↦ let q : some false ≡ some true = rw (e, all_received, f) at p in absurd cc
        ]
      ],
      λ (p, ps). rw (p, all_received) (complete ps),
    )

-- The first of the addresses of which the store does not say yes, and what it says of that one.
pub data IsFirst (received : Address → Option Bool) (answer : Option Bool)
    : List Address → Type 0 where
  here :
      (a : Address) (as_ : List Address) → received a ≡ answer → IsFirst received answer (a ∷ as_)
  later :
      (a : Address) (as_ : List Address)
      → received a ≡ some true
      → IsFirst received answer as_
      → IsFirst received answer (a ∷ as_)

IsFirst-all_received :
    (received : Address → Option Bool) (answer : Option Bool) (as_ : List Address)
    → answer ≢ some true
    → IsFirst received answer as_
    → all_received received as_ ≡ answer
unfolding all_received
IsFirst-all_received received none _ ne (here a as_ e) = rw (e, all_received) refl
IsFirst-all_received received (some true) _ ne (here a as_ e) = absurd (ne refl)
IsFirst-all_received received (some false) _ ne (here a as_ e) = rw (e, all_received) refl
IsFirst-all_received received answer _ ne (later a as_ e f) =
    rw (e, all_received) (IsFirst-all_received received answer as_ ne f)

all_received-IsFirst :
    (received : Address → Option Bool) (answer : Option Bool) (as_ : List Address)
    → answer ≢ some true
    → all_received received as_ ≡ answer
    → IsFirst received answer as_
unfolding all_received
all_received-IsFirst received answer [] ne e = absurd (ne (sym e))
all_received-IsFirst received answer (a ∷ as_) ne e = elim (Option-cases (received a)) [
  | inl n ↦ here a as_ (n ∙ (rw (n, all_received) at e))
  | inr (b, s) ↦ elim (Bool-cases b) [
    | inl t ↦
        later a as_ (s ∙ ap some t)
          (all_received-IsFirst received answer as_ ne (rw (s, all_received, t) at e))
    | inr f ↦ here a as_ (s ∙ (ap some f ∙ (rw (s, all_received, f) at e)))
  ]
]

-- All recipients here have the message already exactly when there is one and the store says so of
-- each. They have not exactly when there is none, or the store, asked of each in turn, says no first.
-- An error is the answer exactly when the store gives an error first.
pub all_local_recipients_have_message_hash_iff :
    (received : Address → Option Bool) (addrs : List Address)
    → ((all_local_recipients_have_message_hash received addrs ≡ some true)
        ↔ ((addrs ≢ []) × All (λ a. received a ≡ some true) addrs))
      × ((all_local_recipients_have_message_hash received addrs ≡ some false)
          ↔ ((addrs ≡ []) ⊎ IsFirst received (some false) addrs))
      × ((all_local_recipients_have_message_hash received addrs ≡ none)
          ↔ IsFirst received none addrs)
unfolding all_local_recipients_have_message_hash
all_local_recipients_have_message_hash_iff received [] = (
  ((λ e. absurd cc), λ (ne, all). absurd (ne refl)),
  ((λ e. inl refl), λ r. refl),
  ((λ e. absurd cc), λ f. elim f [ ]),
)
all_local_recipients_have_message_hash_iff received (a ∷ as_) =
    let (sound, complete) = all_received_iff received (a ∷ as_) in
    let some_one : (suc (length as_) == 0) ≡ false = ground arith in
    (
      ((λ e. ((λ nil. cc), sound (rw some_one at e))), λ (ne, all). rw some_one (complete all)),
      (
        (λ e.
            inr (all_received-IsFirst received (some false) (a ∷ as_) no_true (rw some_one at e))),
        λ r. elim r [
          | inl nil ↦ absurd cc
          | inr f ↦ rw some_one (IsFirst-all_received received (some false) (a ∷ as_) no_true f)
        ],
      ),
      (
        (λ e. all_received-IsFirst received none (a ∷ as_) not_none (rw some_one at e)),
        λ f. rw some_one (IsFirst-all_received received none (a ∷ as_) not_none f),
      ),
    )
  where
    no_true : ◌≢◌ {A = Option Bool} (some false) (some true)
    no_true e = cc

    not_none : ◌≢◌ {A = Option Bool} none (some true)
    not_none e = cc
