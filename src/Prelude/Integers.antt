-- ===== src/Prelude/Integers.antt =====
-- Integers over the native numbers, as far as the code compares them.
use Prim.Native.Nat.{ℕ, ◌<◌}
use mathlib.Core.Bool.{Bool, true, false}
use mathlib.Core.Path.{◌≡◌}
use web_listening.Prelude.Tests.{ltb, ltb→lt}

-- `negsuc n` is the integer -(n + 1).
pub data ℤ : Type 0 where
  pos negsuc : ℕ → ℤ

abbrev pub ltbℤ : ℤ → ℤ → Bool
ltbℤ (pos a) (pos b) = ltb a b
ltbℤ (pos a) (negsuc b) = false
ltbℤ (negsuc a) (pos b) = true
ltbℤ (negsuc a) (negsuc b) = ltb b a

-- Python's `max(0, n)`.
abbrev pub clamp : ℤ → ℕ
clamp (pos n) = n
clamp (negsuc n) = 0

pub ltbℤ→lt : (n : ℕ) (m : ℤ) → ltbℤ (pos n) m ≡ true → n < clamp m
ltbℤ→lt n (pos m) h = ltb→lt n m h
ltbℤ→lt n (negsuc m) h = cc
