-- ===== src/Screen/Numbers.antt =====
-- strToUInt and strToHex print a number that can be read back.
use native.Mathlib.Nat
use mathlib.Core.Path.{subst}
use boba_os.Base.{
  Ram, poke, ℕ, zero, suc, ◌+◌, ◌-◌, ◌*◌, ◌/◌, ◌%◌, ◌^◌, ◌<◌, ◌≤◌, ◌≡◌, refl, ap, sym, ◌∙◌, ◌≢◌,
  some, Bool-cases, inl, inr, if◌then◌else◌, ltb, ◌==◌, [], ◌∷◌, length, All, arith, ==→ne, ==→eq,
  ne→==, eq→==, le→ltb, lt→leb,
}
use boba_os.Memory.{memcpy}
use boba_os.Memory.Copy.{memcpy-at}
use boba_os.Text.{Chars, text}
use boba_os.Screen.{
  digit_loop, decimal_digit, uint_to_front, str_to_uint, hex_digit, hex_to_front, str_to_hex,
}
use boba_os.Screen.Buffer.{chars, Holds, Holds-moved, Holds-front, text-chars}

-- The number that digits in a base stand for, behind a number that was read before them.
unfoldable pub value : (base before : ℕ) → (digit : ℕ → ℕ) → Chars → ℕ
value base before digit [] = before
value base before digit (c ∷ s) = value base (before * base + digit c) digit s

abbrev pub decimal : ℕ → ℕ
decimal c = c - b'0'

abbrev pub hexadecimal : ℕ → ℕ
hexadecimal c = if ltb c b'A' then c - b'0' else c - b'A' + 10

power : ℕ → ℕ → ℕ
power base zero = 1
power base (suc k) = base * power base k

-- What the loop leaves of the digits `ds` and the rest `num` in front of them.
record Printed (base last : ℕ) (back : ℕ → ℕ) (num n i : ℕ) (ds : Chars) (b : Ram) (r : ℕ × Ram)
    : Type 0 where
  digits : Chars
  count : length digits + i ≡ length ds + r.0 + 1
  later : i ≤ r.0
  few : r.0 < i + n
  holds : Holds r.1 (last - r.0) digits
  nonzero : All (λ c. c ≢ 0) digits
  same : value base 0 back digits ≡ value base num back ds
  before : (a : ℕ) → a < last - r.0 → r.1 a ≡ b a

-- A base above 0 with its digits and the way to read them back.
module _ (base last : ℕ) (digit back : ℕ → ℕ) (some_base : 0 < base)
    (read : (d : ℕ) → d < base → back (digit d) ≡ d) (plain : (d : ℕ) → digit d ≢ 0) where
  read_back : (num : ℕ) → num / base * base + back (digit (num % base)) ≡ num
  read_back num =
      ap (λ x. num / base * base + x) (read (num % base) (Nat.mod-lt num some_base))
      ∙ ap (λ x. x + num % base) (Nat.mul_comm (num / base) base)
      ∙ Nat.div-add-mod num base

  quotient_small : (num m : ℕ) → num < base * m → num / base < m
  quotient_small num m small =
      (Nat.div-lt_iff_lt-mul some_base).1 (subst (λ x. num < x) (Nat.mul_comm base m) small)

  some_left : (n q : ℕ) → q < power base n → q ≢ 0 → 0 < n
  unfolding power
  some_left zero q small some_rest = absurd (some_rest (omega arith))
  some_left (suc n) q small some_rest = omega arith

  digit_loop-Printed :
      (n k num i : ℕ) (ds : Chars) (b : Ram)
      → num < power base n
      → 0 < n
      → n ≤ k
      → i + n ≤ last + 1
      → Holds b (last + 1 - i) ds
      → All (λ c. c ≢ 0) ds
      → Printed base last back num n i ds b (digit_loop base last digit k num i b)
  unfolding digit_loop power value
  digit_loop-Printed zero k num i ds b small some_rounds rounds room holds nonzero =
      absurd (omega arith)
  digit_loop-Printed (suc n) zero num i ds b small some_rounds rounds room holds nonzero =
      absurd (omega arith)
  digit_loop-Printed (suc n) (suc k) num i ds b small some_rounds rounds room holds nonzero =
      let c = digit (num % base) in
      let b' = poke b (last - i) c in
      let stored : Holds b' (last - i) (c ∷ ds) = (
        rw (eq→== (last - i) (last - i) refl) refl,
        Holds-moved b b' (last + 1 - i) (last - i + 1) ds
            (λ j inside.
              rw (ne→== (last - i + 1 + j) (last - i) (omega arith)) (ap b (omega arith)))
            holds,
      ) in
      let outside : (a : ℕ) → a < last - i → b' a ≡ b a =
        λ a low. rw (ne→== a (last - i) (omega arith)) refl in
      let whole = ap (λ m. value base m back ds) (read_back num) in
      elim (Bool-cases (num / base == 0)) [
        | inl used_up ↦
            let front : num / base ≡ 0 = ==→eq (num / base) 0 used_up in
            rw used_up (record {
              digits = c ∷ ds;
              count = omega arith;
              later = omega arith;
              few = omega arith;
              holds = stored;
              nonzero = (plain (num % base), nonzero);
              same = ap (λ m. value base (m * base + back c) back ds) (sym front) ∙ whole;
              before = outside;
            })
        | inr more ↦
            let left = ==→ne (num / base) 0 more in
            let smaller = quotient_small num (power base n) small in
            let again = some_left n (num / base) smaller left in
            let r =
              digit_loop-Printed n k (num / base) (i + 1) (c ∷ ds) b' smaller again (omega arith)
                (omega arith)
                (Holds-moved b' b' (last - i) (last + 1 - (i + 1)) (c ∷ ds)
                  (λ j inside. ap b' (omega arith)) stored)
                (plain (num % base), nonzero) in
            rw more (record {
              digits = r.digits;
              count = omega (arith, r.count);
              later = omega (arith, r.later);
              few = omega (arith, r.few);
              holds = r.holds;
              nonzero = r.nonzero;
              same = r.same ∙ whole;
              before = λ a low. r.before a low ∙ outside a (omega (arith, r.later));
            })
      ]

hex_back : (d : ℕ) → d < 16 → hexadecimal (hex_digit d) ≡ d
hex_back d small = ground arith

hex_nonzero : (d : ℕ) → hex_digit d ≢ 0
hex_nonzero d = ground arith

-- What the buffer of strToUInt holds behind its loop is moved to the front.
uint_to_front-text :
    (num : ℕ) (b : Ram) (r : ℕ × Ram)
    → Printed 10 19 decimal num 20 0 [] b r
    → (out : Ram) × (uint_to_front r ≡ some out)
      × (value 10 0 decimal (text (chars out 0 32)) ≡ num)
unfolding value
uint_to_front-text num b (i, b1) printed =
    let out = poke (memcpy b1 0 (19 - i) (i + 1)) (i + 1) 0 in
    let held : Holds out 0 printed.digits =
      subst (λ x. Holds (poke (memcpy b1 0 (19 - i) (i + 1)) x 0) 0 printed.digits)
        (omega (arith, printed.count))
        (Holds-front b1 0 (19 - i) (i + 1) printed.digits (omega arith)
          (omega (arith, printed.count)) printed.holds) in
    let end : out (0 + length printed.digits) ≡ 0 =
      rw (eq→== (0 + length printed.digits) (i + 1) (omega (arith, printed.count))) refl in
    rw (le→ltb 19 i (omega (arith, printed.few))) (
      out,
      refl,
      ap (value 10 0 decimal) (
            text-chars out 0 32 printed.digits held printed.nonzero end
              (omega (arith, printed.count, printed.few)))
          ∙ printed.same,
    )

-- The same behind "0x".
hex_to_front-text :
    (num : ℕ) (b : Ram) (r : ℕ × Ram)
    → Printed 16 22 hexadecimal num 16 2 [] (poke (poke b 0 b'0') 1 b'x') r
    → (s : Chars) × (text (chars (hex_to_front r) 0 32) ≡ b'0' ∷ b'x' ∷ s)
      × (value 16 0 hexadecimal s ≡ num)
unfolding value
hex_to_front-text num b (i, b1) printed =
    let copied = memcpy b1 2 (22 - i) (i + 1) in
    let out = poke copied (i + 1) 0 in
    let held : Holds out 2 printed.digits =
      subst (λ x. Holds (poke copied x 0) 2 printed.digits) (omega (arith, printed.count))
        (Holds-front b1 2 (22 - i) (i + 1) printed.digits (omega (arith, printed.few))
          (omega (arith, printed.count)) printed.holds) in
    let front : (a : ℕ) → a < 2 → out a ≡ poke (poke b 0 b'0') 1 b'x' a = λ a low.
      rw
        (
          ne→== a (i + 1) (omega (arith, printed.later)),
          memcpy-at b1 2 (22 - i) (i + 1) a (inl (omega (arith, printed.few))),
          lt→leb a 2 low,
        )
        (printed.before a (omega (arith, printed.few))) in
    let prefix = b'0' ∷ b'x' ∷ printed.digits in
    let end : out (0 + length prefix) ≡ 0 =
      rw (eq→== (0 + length prefix) (i + 1) (omega (arith, printed.count))) refl in
    (
      printed.digits,
      text-chars out 0 32 prefix (front 0 (omega arith), (front 1 (omega arith), held))
          (omega arith, (omega arith, printed.nonzero)) end
          (omega (arith, printed.count, printed.few)),
      printed.same,
    )

-- For every uint64_t and whatever its buffer holds, strToUInt finds the last digit in its 20 rounds
-- and leaves a text in the first 32 bytes of the buffer that reads back in base 10 as the number;
-- strToHex leaves "0x" with a text behind it that reads back in base 16 as the number.
pub str_to_uint-value :
    (num : ℕ) (b : Ram)
    → num < 2 ^ 64
    → ((out : Ram) × (str_to_uint num b ≡ some out)
        × (value 10 0 decimal (text (chars out 0 32)) ≡ num))
      × ((s : Chars) × (text (chars (str_to_hex num b) 0 32) ≡ b'0' ∷ b'x' ∷ s)
          × (value 16 0 hexadecimal s ≡ num))
unfolding str_to_uint str_to_hex power
str_to_uint-value num b small = (
  uint_to_front-text num b _ (
      digit_loop-Printed 10 19 decimal_digit decimal (omega arith) (λ d small. omega arith)
        (λ d. omega arith) 20 20 num 0 [] b (omega arith) (omega arith) (omega arith) (omega arith)
        tt tt),
  hex_to_front-text num b _ (
      digit_loop-Printed 16 22 hex_digit hexadecimal (omega arith) hex_back hex_nonzero 16 20 num 2
        [] (poke (poke b 0 b'0') 1 b'x') (omega arith) (omega arith) (omega arith) (omega arith) tt
        tt),
)
