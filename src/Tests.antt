-- ===== src/Tests.antt =====
-- Concrete inputs for the theorems, and runs of the definitions.
pub mod Header
mod Outgoing
mod Emoji
pub mod Receive
mod Delivery
pub mod Serve
mod Sender
mod Service
mod Store
mod Window
use fmsgd.Prelude.{
  ◌≡◌, All, IsByte, and-true, ltb→lt, ℕ, ◌+◌, ◌-◌, Bool, true, false, ◌&&◌, List, [], ◌∷◌, map, leb,
  ltb, if◌then◌else◌, Bytes, bytes_eq, replicate,
}
use fmsgd.Text.{Unicode, codes}
use fmsgd.Receive.{Config, Float64}
use fmsgd.Wire.{Address}

abbrev lower : ℕ → ℕ
lower c = if leb b'A' c && leb c b'Z' then c + 32 else c

-- Letters, digits and case for ASCII alone.
abbrev pub ascii : Unicode
ascii = record {
  is_letter = λ c. leb b'a' (lower c) && leb (lower c) b'z';
  is_number = λ c. leb b'0' c && leb c b'9';
  to_lower = map lower;
  equal_fold = λ a b. bytes_eq (map lower a) (map lower b);
}

-- Times as plain numbers.
abbrev pub seconds : Float64
seconds = record { sub = λ a b. a - b; abs = λ a. a; gt = λ a b. ltb b a }

abbrev pub config : Config
config = record {
  unicode = ascii;
  float = seconds;
  domain = codes "b.com";
  now = 1000;
  past_time_delta = 500;
  future_time_delta = 300;
  max_message_size = 10240;
  max_expanded_size = 10240;
}

abbrev pub alice : Address
alice = record { user = codes "alice"; domain = codes "a.com" }

abbrev pub bob : Address
bob = record { user = codes "bob"; domain = codes "b.com" }

abbrev pub carol : Address
carol = record { user = codes "carol"; domain = codes "b.com" }

abbrev pub thirty_two : Bytes
thirty_two = replicate 32 7

-- A check that a list holds bytes, to be run.
abbrev pub are_bytes : Bytes → Bool
are_bytes [] = true
are_bytes (b ∷ bs) = ltb b 256 && are_bytes bs

pub are_bytes-IsByte : (bs : Bytes) → are_bytes bs ≡ true → All IsByte bs
are_bytes-IsByte [] h = tt
are_bytes-IsByte (b ∷ bs) h =
    let (low, rest) = and-true (ltb b 256) (are_bytes bs) h in
    (ltb→lt b 256 low, are_bytes-IsByte bs rest)
