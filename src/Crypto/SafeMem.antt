-- ===== src/Crypto/SafeMem.antt =====
-- internal/crypto/safemem.go, less the locking of pages, which changes no value.
pub mod Comparison
use ghostmail.Prelude.{ℕ, zero, suc, Bool, false, Bytes, [], ◌∷◌, ◌==◌, if◌then◌else◌, length, map}
use Prim.Native.Nat.{bit_or, bit_xor}

-- Wipe and WipeKey: every byte is zero, the length stays.
unfoldable pub wipe : Bytes → Bytes
wipe b = map (λ c. 0) b

-- The loop of ConstantTimeEqual, over texts of one length.
unfoldable pub differences : ℕ → Bytes → Bytes → ℕ
differences result (c ∷ a) (d ∷ b) = differences (bit_or result (bit_xor c d)) a b
differences result [] b = result
differences result (c ∷ a) [] = result

unfoldable pub constant_time_equal : Bytes → Bytes → Bool
constant_time_equal a b = if length a == length b then differences 0 a b == 0 else false

-- LockedKey and LockedBuffer, by what their memory holds.
record Locked : Type 0 where
  pub content : Bytes

abbrev zeros : ℕ → Bytes
zeros zero = []
zeros (suc n) = 0 ∷ zeros n

unfoldable new_locked_key : Locked
new_locked_key = record { content = zeros 32 }

unfoldable new_locked_buffer : ℕ → Locked
new_locked_buffer size = record { content = zeros size }

-- Both Release methods.
unfoldable release_locked : Locked → Locked
release_locked k = record { content = wipe k.content }

-- LockedBuffer.Size
unfoldable locked_size : Locked → ℕ
locked_size b = length b.content
