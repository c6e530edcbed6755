-- ===== src/Base/Bytes.antt =====
-- The machine's memory as a function of the address, and words of a fixed width.
use Prim.Native.Nat.{ℕ, ◌+◌, ◌-◌, ◌*◌, ◌%◌, ◌^◌}
use boba_os.Base.Tests.{◌==◌, ltb, if◌then◌else◌}

-- One byte at each address.
abbrev pub Ram : Type 0
Ram = ℕ → ℕ

-- A store of one byte.
abbrev pub poke : Ram → ℕ → ℕ → Ram
poke m a v = λ x. if x == a then v else m x

-- uint64_t arithmetic.
abbrev pub add64 : ℕ → ℕ → ℕ
add64 a b = (a + b) % 2 ^ 64

abbrev pub sub64 : ℕ → ℕ → ℕ
sub64 a b = (a + 2 ^ 64 - b) % 2 ^ 64

abbrev pub mul64 : ℕ → ℕ → ℕ
mul64 a b = (a * b) % 2 ^ 64

-- An int, given modulo 2^32 or more, as a uint64_t: the low 32 bits, sign-extended.
abbrev pub through_int : ℕ → ℕ
through_int x = if ltb (x % 2 ^ 32) (2 ^ 31) then x % 2 ^ 32 else 2 ^ 64 - 2 ^ 32 + x % 2 ^ 32
