-- ===== src/Indicators/Targets.antt =====
-- The receivers of an indicator (cmd/fmsgd/indicators.go): `indicatorParticipants`,
-- `participantIndex` and `selectIndicatorTargets`.
pub mod Sound
use fmsgd.Prelude.{
  ◌^◌, ℕ, zero, suc, ◌≡◌, ◌≤◌, ◌<◌, ◌⊎◌, inl, inr, refl, ◌∙◌, sym, ap, Bool, true, false, ◌||◌, not,
  ltb, ◌==◌, if◌then◌else◌, Bool-cases, Option-cases, arith, List, [], ◌∷◌, ◌++◌, Option, none,
  some, length, Bytes, All,
}
use fmsgd.Text.{Unicode}
use fmsgd.Wire.{Address, to_string, Header, has, flag_has_add_to}
use fmsgd.Wire.Encode.{adder}
use fmsgd.Receive.{contains, has_domain_recipient}
use mathlib.Core.Option
use mathlib.Core.List.{Mem}

-- `indicatorParticipants`.
unfoldable pub indicator_participants : Header → List Address
indicator_participants h =
    h.from ∷ (h.to ++ (if has h.flags flag_has_add_to then adder h ∷ h.add_to else []))

pub record IndicatorSubject : Type 0 where
  pub hash : Bytes
  pub participants : List Address

pub record IndicatorTarget : Type 0 where
  pub domain : Bytes
  pub hash : Bytes
  pub index : ℕ

module _ (u : Unicode) where
  unfoldable pub position : Address → List Address → Option ℕ
  position a [] = none
  position a (p ∷ ps) =
      let further = Option.map suc (position a ps) in
      if u.equal_fold (to_string p) (to_string a) then some 0 else further

  -- `participantIndex`; none for -1.
  unfoldable pub participant_index : IndicatorSubject → Address → Option ℕ
  participant_index s a = position a s.participants

  -- `hasDomain`.
  unfoldable pub has_domain : IndicatorSubject → Bytes → Bool
  has_domain s d = has_domain_recipient u s.participants d

  module _ (is_local : Bytes → Bool) where
    -- `addDomains` on the participants of one subject; what is seen is what has been added.
    unfoldable pub add_domains : List Address → List Bytes → List Bytes
    add_domains [] domains = domains
    add_domains (p ∷ ps) domains =
        let d = u.to_lower p.domain in
        add_domains ps (if contains d domains || is_local d then domains else domains ++ d ∷ [])

    unfoldable pub add_all_domains : List IndicatorSubject → List Bytes → List Bytes
    add_all_domains [] domains = domains
    add_all_domains (s ∷ ss) domains = add_all_domains ss (add_domains s.participants domains)

  module _ (from : Address) where
    -- The first subject with a participant on the domain, and with `from`: the original is tried
    -- before the batches.
    unfoldable pub choose : Bytes → List IndicatorSubject → Option (IndicatorSubject × ℕ)
    choose d [] = none
    choose d (s ∷ ss) =
        let others = choose d ss in
        if has_domain s d
        then Option.get_or (Option.map (λ i. some (s, i)) (participant_index s from)) others
        else others

    unfoldable pub target_of : Bytes → Option (IndicatorSubject × ℕ) → List IndicatorTarget
    target_of d none = []
    target_of d (some (s, i)) =
        if not (length s.hash == 32) || ltb 65535 i
        then []
        else record { domain = d; hash = s.hash; index = i } ∷ []

    unfoldable pub targets_at : List IndicatorSubject → List Bytes → List IndicatorTarget
    targets_at ss [] = []
    targets_at ss (d ∷ ds) = target_of d (choose d ss) ++ targets_at ss ds

    unfoldable pub subjects :
        Option IndicatorSubject → List IndicatorSubject → List IndicatorSubject
    subjects none batches = batches
    subjects (some original) batches = original ∷ batches

    -- `selectIndicatorTargets`.
    unfoldable pub select_indicator_targets :
        (Bytes → Bool) → Option IndicatorSubject → List IndicatorSubject → List IndicatorTarget
    select_indicator_targets is_local original batches =
        let all = subjects original batches in targets_at all (add_all_domains is_local all [])

    -- What a receiving host needs of a target: it is one of the subjects, which the domain has a
    -- participant in, by its hash of 32 bytes, and the index, a uint16, is where `from` stands first.
    pub record IsTarget (ss : List IndicatorSubject) (t : IndicatorTarget) : Type 0 where
      pub subject : IndicatorSubject
      pub held : has_domain subject t.domain ≡ true
      pub indexed : participant_index subject from ≡ some t.index
      pub hash : t.hash ≡ subject.hash
      pub sized : length t.hash ≡ 32
      pub small : t.index < 2 ^ 16
      pub listed : Mem subject ss
