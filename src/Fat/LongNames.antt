-- ===== src/Fat/LongNames.antt =====
-- The entries of a long name give the name back.
use boba_os.Base.{
  ℕ, zero, suc, ◌+◌, ◌*◌, ◌/◌, ◌%◌, ◌^◌, ◌≤◌, ◌<◌, ◌≡◌, refl, sym, ap, ◌∙◌, Ram, if◌then◌else◌,
  ◌==◌, List, [], ◌∷◌, ◌++◌, length, drop, take, replicate, get_or, arith, All, ne→==, inl, inr,
  length-replicate, length-drop, take-drop, lt-cases,
}
use mathlib.Core.List.{append-nil, append_assoc}
use boba_os.Text.{Chars, text}
use boba_os.Fat.Room.{long_entries_needed}
use boba_os.Fat.Names.{
  long_chars, LongFileNameEntry, to_long_file_name, long_entry_bytes, lfn_chars, chain_chars,
  until_padding, long_file_name_entries_to_name,
}

-- The two bytes of a character put together.
abbrev whole : ℕ → ℕ
whole x = x / 2 ^ (8 * 0) % 2 ^ 8 + 2 ^ 8 * (x / 2 ^ (8 * 1) % 2 ^ 8)

items : (k i : ℕ) → Chars → Chars
items zero i xs = []
items (suc k) i xs = whole (get_or xs i 0) ∷ items k (suc i) xs

items-shift : (k i x : ℕ) (xs : Chars) → items k (suc i) (x ∷ xs) ≡ items k i xs
unfolding items
items-shift zero i x xs = refl
items-shift (suc k) i x xs = ap (λ t. whole (get_or xs i 0) ∷ t) (items-shift k (suc i) x xs)

items-whole : (k : ℕ) (xs : Chars) → length xs ≡ k → All (λ x. x < 2 ^ 16) xs → items k 0 xs ≡ xs
unfolding items
items-whole zero [] e small = refl
items-whole zero (x ∷ xs) e small = absurd (omega arith)
items-whole (suc k) [] e small = absurd (omega arith)
items-whole (suc k) (x ∷ xs) e small =
    let first : whole x ≡ x = omega (arith, small.0) in
    rw first (ap (λ t. x ∷ t) (items-shift k 0 x xs ∙ items-whole k xs (omega arith) small.1))

lfn_chars-items : (e : LongFileNameEntry) → lfn_chars (long_entry_bytes e) 13 0 ≡ items 13 0 e.chars
unfolding lfn_chars long_entry_bytes items
lfn_chars-items e = refl

-- A character of a name: a byte that is not the terminator.
abbrev pub Plain : ℕ → Type 0
Plain c = (0 < c) × (c < 256)

All-replicate : (k : ℕ) → All (λ x. x < 2 ^ 16) (replicate k 65535)
All-replicate zero = tt
All-replicate (suc k) = (omega arith, All-replicate k)

long_chars-small :
    (k : ℕ) (name : Chars) → All Plain name → All (λ x. x < 2 ^ 16) (long_chars k name)
unfolding long_chars
long_chars-small zero name plain = tt
long_chars-small (suc k) [] plain = (omega arith, All-replicate k)
long_chars-small (suc k) (c ∷ name) plain =
    (omega (arith, plain.0), long_chars-small k name plain.1)

length-long_chars : (k : ℕ) (name : Chars) → length (long_chars k name) ≡ k
unfolding long_chars
length-long_chars zero name = refl
length-long_chars (suc k) [] = ap suc (length-replicate k 65535)
length-long_chars (suc k) (c ∷ name) = ap suc (length-long_chars k name)

text-same : (name : Chars) → All Plain name → text name ≡ name
unfolding text
text-same [] plain = refl
text-same (c ∷ name) plain =
    rw (ne→== c 0 (omega (arith, plain.0))) (ap (λ t. c ∷ t) (text-same name plain.1))

lfn_chars-long_chars :
    (name : Chars) (order sum : ℕ)
    → All Plain name
    → lfn_chars (long_entry_bytes (to_long_file_name name order sum)) 13 0 ≡ long_chars 13 name
unfolding to_long_file_name
lfn_chars-long_chars name order sum plain =
    lfn_chars-items (to_long_file_name name order sum)
    ∙ ap (λ s. items 13 0 (long_chars 13 s)) (text-same name plain)
    ∙ items-whole 13 (long_chars 13 name) (length-long_chars 13 name)
        (long_chars-small 13 name plain)

All-drop : (k : ℕ) (name : Chars) → All Plain name → All Plain (drop k name)
All-drop zero name plain = plain
All-drop (suc k) [] plain = tt
All-drop (suc k) (c ∷ name) plain = All-drop k name plain.1

until_padding-cons : (c : ℕ) (s : Chars) → c < 256 → until_padding (c ∷ s) ≡ c ∷ until_padding s
unfolding until_padding
until_padding-cons c s small =
    let same : c % 256 ≡ c = omega arith in rw (ne→== c 65535 (omega arith), same) refl

-- Padding ends the name.
until_padding-padding : (k : ℕ) → until_padding (replicate k 65535) ≡ []
unfolding until_padding
until_padding-padding zero = refl
until_padding-padding (suc k) = refl

-- An entry that the name fills.
until_padding-full :
    (k : ℕ) (name rest : Chars)
    → All Plain name
    → k ≤ length name
    → until_padding (long_chars k name ++ rest) ≡ take k name ++ until_padding rest
unfolding long_chars
until_padding-full zero name rest plain enough = refl
until_padding-full (suc k) [] rest plain enough = absurd (omega arith)
until_padding-full (suc k) (c ∷ name) rest plain enough =
    until_padding-cons c (long_chars k name ++ rest) plain.0.1
    ∙ ap (λ t. c ∷ t) (until_padding-full k name rest plain.1 (omega arith))

-- The last entry, where there is room for the terminator.
until_padding-last :
    (k : ℕ) (name : Chars)
    → All Plain name
    → length name < k
    → until_padding (long_chars k name ++ []) ≡ name ++ 0 ∷ []
unfolding long_chars
until_padding-last zero name plain small = absurd (omega arith)
until_padding-last (suc k) [] plain small =
    until_padding-cons 0 (replicate k 65535 ++ []) (omega arith)
    ∙ ap (λ t. 0 ∷ t) (ap until_padding (append-nil (replicate k 65535)) ∙ until_padding-padding k)
until_padding-last (suc k) (c ∷ name) plain small =
    until_padding-cons c (long_chars k name ++ []) plain.0.1
    ∙ ap (λ t. c ∷ t) (until_padding-last k name plain.1 (omega arith))

-- The entries of a name from number `i` on as they stand on the volume: the first part of the name
-- in the entry with the least number. `sum` is the check sum, and `order i` what stands in the
-- first byte of entry `i`.
unfoldable pub long_chain : (order : ℕ → ℕ) (sum k i : ℕ) (name : Chars) → List Ram
long_chain order sum zero i name = []
long_chain order sum (suc k) i name =
    long_entry_bytes (to_long_file_name name (order i) sum)
    ∷ long_chain order sum k (i + 1) (drop 13 name)

-- What the name ends in: a terminator, unless it fills its last entry.
abbrev pub ending : (length : ℕ) → Chars
ending length = if length % 13 == 0 then [] else 0 ∷ []

chain-step :
    (order : ℕ → ℕ) (sum k i : ℕ) (name : Chars)
    → All Plain name
    → chain_chars (long_chain order sum (suc k) i name)
      ≡ long_chars 13 name ++ chain_chars (long_chain order sum k (i + 1) (drop 13 name))
unfolding long_chain chain_chars
chain-step order sum k i name plain =
    ap (λ t. t ++ chain_chars (long_chain order sum k (i + 1) (drop 13 name)))
      (lfn_chars-long_chars name (order i) sum plain)

long_chain-name :
    (order : ℕ → ℕ) (sum k i : ℕ) (name : Chars)
    → All Plain name
    → 13 * k < length name + 13
    → length name ≤ 13 * k
    → until_padding (chain_chars (long_chain order sum k i name)) ≡ name ++ ending (length name)
unfolding long_chain chain_chars until_padding long_chars
long_chain-name order sum zero i [] plain more small = refl
long_chain-name order sum zero i (c ∷ name) plain more small = absurd (omega arith)
long_chain-name order sum (suc k) i name plain more small = elim (lt-cases (length name) 13) [
  | inl last ↦
      let no_more : k ≡ 0 = omega arith in
      let open_end : ending (length name) ≡ 0 ∷ [] =
        rw (ne→== (length name % 13) 0 (omega arith)) refl in
      ap until_padding (chain-step order sum k i name plain)
      ∙ ap
          (λ j.
            until_padding
              (long_chars 13 name ++ chain_chars (long_chain order sum j (i + 1) (drop 13 name))))
          no_more
      ∙ until_padding-last 13 name plain last
      ∙ ap (λ t. name ++ t) (sym open_end)
  | inr full ↦
      let left = length-drop 13 name in
      let same : ending (length (drop 13 name)) ≡ ending (length name) =
        ap (λ r. if r == 0 then [] else 0 ∷ []) (omega (arith, left)) in
      ap until_padding (chain-step order sum k i name plain)
      ∙ until_padding-full 13 name (chain_chars (long_chain order sum k (i + 1) (drop 13 name)))
          plain full
      ∙ ap (λ t. take 13 name ++ t)
          (long_chain-name order sum k (i + 1) (drop 13 name) (All-drop 13 name plain)
              (omega (arith, left)) (omega (arith, left))
            ∙ ap (λ t. drop 13 name ++ t) same)
      ∙ sym (append_assoc (take 13 name) (drop 13 name) (ending (length name)))
      ∙ ap (λ t. t ++ ending (length name)) (take-drop 13 name)
]

long_entries_needed-covers :
    (length : ℕ)
    → length ≤ 13 * 255
    → (13 * long_entries_needed length < length + 13) × (length ≤ 13 * long_entries_needed length)
unfolding long_entries_needed
long_entries_needed-covers length small = (ground arith, ground arith)

-- A name of bytes that are no terminators, with at most 255 entries, comes back from its entries as
-- they stand on the volume, whatever their orders and their check sum: with its terminator, unless
-- its length is a multiple of 13. Then nothing ends the name.
pub long_file_name_entries_to_name-long_chain :
    (order : ℕ → ℕ) (sum : ℕ) (name : Chars)
    → All Plain name
    → length name ≤ 13 * 255
    → long_file_name_entries_to_name
        (long_chain order sum (long_entries_needed (length name)) 0 name)
      ≡ name ++ ending (length name)
unfolding long_file_name_entries_to_name
long_file_name_entries_to_name-long_chain order sum name plain small =
    let (more, enough) = long_entries_needed-covers (length name) small in
    long_chain-name order sum (long_entries_needed (length name)) 0 name plain more enough
