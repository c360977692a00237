-- ===== src/Storage.antt =====
-- src/josuke/storage.py: the delegate address that a storage word holds.
pub mod Trace
pub mod Walk
pub mod Routes
pub mod Found
pub mod Ends
pub mod Rounds
pub mod Fetch
mod Tests
use josuke.Prelude.{
  ℕ, zero, suc, ◌-◌, Bool, true, ◌&&◌, Option, none, some, [], ◌∷◌, ◌++◌, nat_beq, if◌then◌else◌,
  length, drop,
}
use josuke.Prelude.Bytes.{Bytes}

abbrev pub zeros : ℕ → Bytes
zeros zero = []
zeros (suc n) = 0 ∷ zeros n

abbrev pub all_zero : Bytes → Bool
all_zero [] = true
all_zero (b ∷ bs) = nat_beq b 0 && all_zero bs

-- The last twenty bytes of a word, padded on the left to thirty-two.
abbrev pub low_address : Bytes → Bytes
low_address raw = let word = zeros (32 - length raw) ++ raw in drop (length word - 20) word

unfoldable pub slot_address : Option Bytes → Option Bytes
slot_address none = none
slot_address (some raw) = if all_zero raw then none else some (low_address raw)
