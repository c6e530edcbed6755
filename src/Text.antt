-- ===== src/Text.antt =====
-- kernel/string/string.c. A `char*` is the list of the bytes from it on, and the byte behind the
-- list's end is the terminator; a list may also hold its terminator, with more bytes behind it.
pub mod Compare
pub mod Copy
mod Tests
use Prim.Native.Nat.{bit_and}
use boba_os.Base.{
  ℕ, zero, suc, ◌+◌, ◌-◌, ◌*◌, ◌%◌, ◌^◌, Option, none, some, Bool, ◌&&◌, true, false, if◌then◌else◌,
  ltb, leb, ◌==◌, List, [], ◌∷◌, length, replicate,
}
use mathlib.Core.Option
use boba_os.Memory.{Order, below, same, above}

abbrev pub Chars : Type 0
Chars = List ℕ

-- The bytes up to the terminator.
unfoldable pub text : Chars → Chars
text [] = []
text (c ∷ s) = if c == 0 then [] else c ∷ text s

unfoldable pub strlen : Chars → ℕ
strlen [] = 0
strlen (c ∷ s) = if c == 0 then 0 else suc (strlen s)

-- `char` is signed: a byte from 128 on stands for itself less 256.
abbrev pub shifted : ℕ → ℕ
shifted c = (c + 128) % 256

-- `*str1 > *str2 ? 1 : -1`
unfoldable pub char_order : ℕ → ℕ → Order
char_order c d = if ltb (shifted d) (shifted c) then above else below

-- One round of strcmp at the bytes `c` and `d`, with the rounds after it.
compare_step : ℕ → ℕ → Order → Order
compare_step c d rest = if c == 0 && d == 0 then same else if c == d then rest else char_order c d

unfoldable pub strcmp : Chars → Chars → Order
unfolding compare_step
strcmp [] [] = same
strcmp [] (d ∷ t) = compare_step 0 d same
strcmp (c ∷ s) [] = compare_step c 0 same
strcmp (c ∷ s) (d ∷ t) = compare_step c d (strcmp s t)

unfoldable pub strncmp : Chars → Chars → (len : ℕ) → Order
unfolding compare_step
strncmp s t zero = same
strncmp [] [] (suc len) = same
strncmp [] (d ∷ t) (suc len) = compare_step 0 d same
strncmp (c ∷ s) [] (suc len) = compare_step c 0 same
strncmp (c ∷ s) (d ∷ t) (suc len) = compare_step c d (strncmp s t len)

-- The copies. `none` is a store behind the end of `dest`.
unfoldable pub strncpy : (dest src : Chars) (size : ℕ) → Option Chars
strncpy dest src zero = some dest
strncpy dest [] (suc size) = some dest
strncpy [] (c ∷ s) (suc size) = if c == 0 then some [] else none
strncpy (b ∷ dest) (c ∷ s) (suc size) =
    let rest = Option.map (λ out. c ∷ out) (strncpy dest s size) in
    if c == 0 then some (b ∷ dest) else rest

unfoldable pub strcpy : (dest src : Chars) → Option Chars
strcpy [] src = none
strcpy (b ∷ dest) [] = some (0 ∷ dest)
strcpy (b ∷ dest) (c ∷ s) =
    let rest = Option.map (λ out. c ∷ out) (strcpy dest s) in
    if c == 0 then some (0 ∷ dest) else rest

-- Copies at most `max` bytes, and always a terminator.
unfoldable pub strcpym : (dest src : Chars) (max : ℕ) → Option Chars
strcpym [] src max = none
strcpym (b ∷ dest) src zero = some (0 ∷ dest)
strcpym (b ∷ dest) [] (suc max) = some (0 ∷ dest)
strcpym (b ∷ dest) (c ∷ s) (suc max) =
    let rest = Option.map (λ out. c ∷ out) (strcpym dest s max) in
    if c == 0 then some (0 ∷ dest) else rest

unfoldable pub is_number : ℕ → Bool
is_number c = leb b'0' c && leb c b'9'

-- uint8_t '0' - c.
unfoldable pub to_number : ℕ → ℕ
to_number c = (b'0' + 256 - c) % 256

unfoldable pub upper : ℕ → ℕ
upper c = if leb b'a' c && leb c b'z' then c - 32 else c

-- The loop of toUpperCase: what it stores in `ret`, and then its terminator.
unfoldable pub upper_loop : (ret str : Chars) (len : ℕ) → Option Chars
upper_loop [] [] len = none
upper_loop (b ∷ ret) [] len = some (0 ∷ ret)
upper_loop [] (c ∷ s) zero = none
upper_loop (b ∷ ret) (c ∷ s) zero = some (0 ∷ ret)
upper_loop [] (c ∷ s) (suc len) = none
upper_loop (b ∷ ret) (c ∷ s) (suc len) =
    let rest = Option.map (λ out. upper c ∷ out) (upper_loop ret s len) in
    if c == 0 then some (0 ∷ ret) else rest

-- `ret` has the `len` bytes that toUpperCase asks kzalloc for, all zero. Where there are none
-- (`got` is false) the terminator, if nothing before it, is a write through NULL: `none`.
unfoldable pub to_upper_case : (got : Bool) (str : Chars) (len : ℕ) → Option Chars
unfolding upper_loop upper
to_upper_case false str len = none
to_upper_case true str len = upper_loop (replicate len 0) str len

-- `none` is -1.
unfoldable pub find_char : Chars → ℕ → Option ℕ
find_char [] c = none
find_char (b ∷ s) c =
    let rest = Option.map suc (find_char s c) in
    if b == 0 then none else if b == c then some 0 else rest

-- A `char` as an int added to a uint64_t.
abbrev pub sign_extended : ℕ → ℕ
sign_extended c = if ltb c 128 then c else 2 ^ 64 - 256 + c

pub hash_step : ℕ → ℕ → ℕ
hash_step hash c = (((hash * 32) % 2 ^ 64 + hash) % 2 ^ 64 + sign_extended c) % 2 ^ 64

pub hash_loop : ℕ → Chars → ℕ
hash_loop hash [] = hash
hash_loop hash (c ∷ s) = let rest = hash_loop (hash_step hash c) s in if c == 0 then hash else rest

unfoldable pub str_hash : Chars → ℕ
unfolding hash_loop hash_step
str_hash s = hash_loop 5381 s
