-- ===== src/Tests/Delivery.antt =====
-- Recipients at this host, and the receivers of an indicator.
use fmsgd.Prelude.{
  ◌≡◌, ◌≢◌, ◌↔◌, ◌⊎◌, Bool, Option, none, bytes_eq, if◌then◌else◌, true, false, [], ◌∷◌, ◌++◌, some,
  length, All,
}
use fmsgd.Text.{codes}
use fmsgd.Wire.{Address}
use fmsgd.Receive.Delivery.{local_recipients, all_local_recipients_have_message_hash}
use fmsgd.Receive.Delivery.Local.{
  locals, local_recipients_lem, all_local_recipients_have_message_hash_iff, IsFirst,
}
use fmsgd.Indicators.Targets.{IndicatorSubject, subjects, select_indicator_targets, IsTarget}
use fmsgd.Indicators.Targets.Sound.{select_indicator_targets_sound}
use fmsgd.Tests.{ascii, config, alice, bob, carol, thirty_two}
use fmsgd.Tests.Header.{sample}

local_recipients_lem_example :
    local_recipients config sample
    ≡ (locals config sample.to ++ locals config sample.add_to, length (locals config sample.to))
local_recipients_lem_example = local_recipients_lem config sample

-- The store says yes of bob, and gives an error for anyone else.
abbrev bob_has : Address → Option Bool
bob_has a = if bytes_eq a.user (codes "bob") then some true else none

all_local_recipients_have_message_hash_iff_example :
    ((all_local_recipients_have_message_hash bob_has (bob ∷ carol ∷ []) ≡ some true)
      ↔ ((bob ∷ carol ∷ [] ≢ []) × All (λ a. bob_has a ≡ some true) (bob ∷ carol ∷ [])))
    × ((all_local_recipients_have_message_hash bob_has (bob ∷ carol ∷ []) ≡ some false)
        ↔ ((bob ∷ carol ∷ [] ≡ []) ⊎ IsFirst bob_has (some false) (bob ∷ carol ∷ [])))
    × ((all_local_recipients_have_message_hash bob_has (bob ∷ carol ∷ []) ≡ none)
        ↔ IsFirst bob_has none (bob ∷ carol ∷ []))
all_local_recipients_have_message_hash_iff_example =
    all_local_recipients_have_message_hash_iff bob_has (bob ∷ carol ∷ [])

abbrev subject : IndicatorSubject
subject = record { hash = thirty_two; participants = alice ∷ bob ∷ carol ∷ [] }

select_indicator_targets_sound_example :
    All
      (IsTarget ascii bob (subjects ascii bob (some subject) []))
      (select_indicator_targets ascii bob (λ d. false) (some subject) [])
select_indicator_targets_sound_example =
    select_indicator_targets_sound ascii bob (λ d. false) (some subject) []
