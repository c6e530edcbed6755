-- ===== src/Text/Copy.antt =====
-- What the copies of string.c leave in their target, and toUpperCase, toNumber and findChar.
use mathlib.Core.Option
use boba_os.Base.{
  ℕ, zero, suc, ◌+◌, ◌-◌, ◌%◌, ◌<◌, ◌≤◌, ◌≡◌, ◌≢◌, refl, ◌↔◌, ◌⊎◌, Bool, true, false, if◌then◌else◌,
  ltb, leb, ◌==◌, [], ◌∷◌, ◌++◌, arith, get_or, take-nil, length-replicate, ==→eq, ==→ne,
  Bool-cases, inl, inr, take, drop, length, replicate, Option, some, none, map,
}
use boba_os.Text.{
  Chars, text, strlen, strncpy, strcpy, strcpym, is_number, to_number, upper, upper_loop,
  to_upper_case, find_char, hash_step, hash_loop, str_hash,
}

-- strlen counts the characters before the terminator.
pub strlen-text : (s : Chars) → strlen s ≡ length (text s)
unfolding strlen text
strlen-text [] = refl
strlen-text (c ∷ s) = ground (arith, strlen-text s)

text-text : (s : Chars) → text (text s) ≡ text s
unfolding text
text-text [] = refl
text-text (c ∷ s) = ground (arith, text-text s)

-- In a target with room for the text and its terminator, strcpy stores the text and keeps what
-- lies behind it; in a smaller one it stores out of bounds.
pub strcpy-text :
    (dest src : Chars)
    → strcpy dest src ≡ (
        if ltb (strlen src) (length dest)
        then some (text src ++ 0 ∷ drop (suc (strlen src)) dest)
        else none)
unfolding strcpy text strlen
strcpy-text [] src = ground arith
strcpy-text (b ∷ dest) [] = ground arith
strcpy-text (b ∷ dest) (c ∷ s) = ground (arith, strcpy-text dest s)

-- strcpym stores at most `max` characters and always a terminator.
pub strcpym-text :
    (dest src : Chars) (max : ℕ)
    → strcpym dest src max ≡ (
        if ltb (length (take max (text src))) (length dest)
        then some (take max (text src) ++ 0 ∷ drop (suc (length (take max (text src)))) dest)
        else none)
unfolding strcpym text
strcpym-text [] src max = ground arith
strcpym-text (b ∷ dest) src zero = ground arith
strcpym-text (b ∷ dest) [] (suc max) = ground arith
strcpym-text (b ∷ dest) (c ∷ s) (suc max) = ground (arith, strcpym-text dest s max)

-- strncpy stores at most `size` characters and no terminator.
pub strncpy-text :
    (dest src : Chars) (size : ℕ)
    → strncpy dest src size ≡ (
        if leb (length (take size (text src))) (length dest)
        then some (take size (text src) ++ drop (length (take size (text src))) dest)
        else none)
unfolding strncpy text
strncpy-text dest src zero = ground arith
strncpy-text dest [] (suc size) = ground arith
strncpy-text [] (c ∷ s) (suc size) = ground arith
strncpy-text (b ∷ dest) (c ∷ s) (suc size) = ground (arith, strncpy-text dest s size)

upper_loop-text :
    (len : ℕ) (ret str : Chars)
    → upper_loop ret str len ≡ (
        if ltb (length (take len (text str))) (length ret)
        then some
            (map upper (take len (text str)) ++ 0 ∷ drop (suc (length (take len (text str)))) ret)
        else none)
unfolding upper_loop text
upper_loop-text len [] [] = ground (arith, take-nil ℕ len)
upper_loop-text len (b ∷ ret) [] = ground (arith, take-nil ℕ len)
upper_loop-text zero [] (c ∷ s) = ground arith
upper_loop-text zero (b ∷ ret) (c ∷ s) = ground arith
upper_loop-text (suc len) [] (c ∷ s) = ground arith
upper_loop-text (suc len) (b ∷ ret) (c ∷ s) = ground (arith, upper_loop-text len ret s)

length-take-lt : (n : ℕ) (s : Chars) → ltb (length (take n s)) n ≡ ltb (length s) n
length-take-lt zero s = ground arith
length-take-lt (suc n) [] = ground arith
length-take-lt (suc n) (c ∷ s) = ground (arith, length-take-lt n s)

-- toUpperCase stores a byte outside its buffer exactly when kzalloc gives it none or when the text
-- has at least `len` characters. For a text of `len` characters, as its caller passes it, the
-- terminator is stored behind the buffer.
pub to_upper_case-fits :
    (got : Bool) (str : Chars) (len : ℕ)
    → (to_upper_case got str len ≡ none) ↔ ((got ≡ false) ⊎ (len ≤ strlen str))
unfolding to_upper_case
to_upper_case-fits false str len = (λ _. inl refl, λ _. refl)
to_upper_case-fits true str len = ground (
  arith,
  upper_loop-text len (replicate len 0) str,
  length-replicate {A = ℕ} len 0,
  length-take-lt len (text str),
  strlen-text str,
)

-- toNumber of a digit is its value negated modulo 256: right for '0' alone.
pub to_number-digit : (c : ℕ) → is_number c ≡ true → (to_number c + (c - b'0')) % 256 ≡ 0
unfolding is_number to_number
to_number-digit c h = ground arith

-- What findChar answers: the index of the first `c` in the text.
abbrev pub FirstAt : Chars → ℕ → Option ℕ → Type 0
FirstAt s c none = (i : ℕ) → i < length s → get_or s i 0 ≢ c
FirstAt s c (some i) = (i < length s) × (get_or s i 0 ≡ c) × ((j : ℕ) → j < i → get_or s j 0 ≢ c)

FirstAt-cons :
    (b : ℕ) (s : Chars) (c : ℕ) (o : Option ℕ)
    → b ≢ c
    → FirstAt s c o
    → FirstAt (b ∷ s) c (Option.map suc o)
FirstAt-cons b s c none ne h = λ i. elim i as (λ i. i < length (b ∷ s) → get_or (b ∷ s) i 0 ≢ c) [
  | zero ↦ λ lt. ne
  | suc i ↦ λ lt. h i (omega arith)
]
FirstAt-cons b s c (some i) ne h = (
  omega arith,
  h.1,
  λ j. elim j as (λ j. j < suc i → get_or (b ∷ s) j 0 ≢ c) [
    | zero ↦ λ lt. ne
    | suc j ↦ λ lt. h.2 j (omega arith)
  ],
)

-- findChar answers the index of the first occurrence in the text, and -1 only if there is none.
pub find_char-FirstAt : (s : Chars) (c : ℕ) → FirstAt (text s) c (find_char s c)
unfolding find_char text
find_char-FirstAt [] c = λ i h. absurd (omega arith)
find_char-FirstAt (b ∷ s) c = elim (Bool-cases (b == 0)) [
  | inl e ↦ rw e (λ i h. absurd (omega arith))
  | inr e ↦ elim (Bool-cases (b == c)) [
    | inl hit ↦ rw (e, hit) (omega arith, ==→eq b c hit, λ j h. absurd (omega arith))
    | inr miss ↦ rw (e, miss) (FirstAt-cons b (text s) c _ (==→ne b c miss) (find_char-FirstAt s c))
  ]
]

hash_loop-text : (hash : ℕ) (s : Chars) → hash_loop hash s ≡ hash_loop hash (text s)
unfolding hash_loop text
hash_loop-text hash [] = refl
hash_loop-text hash (c ∷ s) = ground (arith, hash_loop-text (hash_step hash c) s)

-- strHash depends on the text alone: strings whose texts are equal have the same hash.
pub str_hash-text : (s t : Chars) → text s ≡ text t → str_hash s ≡ str_hash t
unfolding str_hash
str_hash-text s t e = rw (hash_loop-text 5381 s, hash_loop-text 5381 t, e)
