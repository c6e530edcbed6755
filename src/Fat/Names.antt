-- ===== src/Fat/Names.antt =====
-- fat32.c: directory entries, and the short and the long names in them.
use boba_os.Base.{
  ℕ, zero, suc, ◌+◌, ◌-◌, ◌*◌, ◌/◌, ◌%◌, ◌^◌, Ram, Option, none, some, Bool, true, false, ◌&&◌,
  if◌then◌else◌, ltb, leb, ◌==◌, List, [], ◌∷◌, ◌++◌, replicate, take, drop, get_or,
}
use boba_os.Memory.{Order, below, same, above}
use boba_os.Text.{Chars, text, strlen, strncmp, strncpy, find_char}

-- The bytes of struct directoryEntry and of struct longFileNameEntry.
abbrev pub entry_size : ℕ
entry_size = 32

-- Entry number `i` of an array of entries.
abbrev pub entry_at : (entries : Ram) (i : ℕ) → Ram
entry_at entries i k = entries (32 * i + k)

-- The `n` bytes from `i` on.
unfoldable pub slice : Ram → (i n : ℕ) → Chars
slice b i zero = []
slice b i (suc n) = b i ∷ slice b (i + 1) n

abbrev pub entry_name : Ram → Chars
entry_name e = slice e 0 8

abbrev pub entry_ext : Ram → Chars
entry_ext e = slice e 8 3

abbrev pub attributes : Ram → ℕ
attributes e = e 11

-- `startClusterHigh << 16 | startClusterLow`
abbrev pub start_cluster : Ram → ℕ
start_cluster e = (e 20 + 2 ^ 8 * e 21) * 2 ^ 16 + (e 26 + 2 ^ 8 * e 27)

abbrev pub file_size : Ram → ℕ
file_size e = e 28 + 2 ^ 8 * e 29 + 2 ^ 16 * e 30 + 2 ^ 24 * e 31

-- DIR_ENTRY_ATTRIBUTE_DIRECTORY, DIR_ENTRY_ATTRIBUTE_ARCHIVE, DIR_ENTRY_ATTRIBUTE_LNF
abbrev pub attribute_directory : ℕ
attribute_directory = 16

abbrev pub attribute_archive : ℕ
attribute_archive = 32

abbrev pub attribute_lnf : ℕ
attribute_lnf = 15

-- strncmp(a, b, n) == 0
abbrev pub is_same : Order → Bool
is_same below = false
is_same same = true
is_same above = false

-- strncpy to `dest + k`.
unfoldable pub copy_at : (dest : Chars) (k : ℕ) (src : Chars) (size : ℕ) → Option Chars
copy_at dest k src size = elim (strncpy (drop k dest) src size) [
  | none ↦ none
  | some out ↦ some (take k dest ++ out)
]

-- A rotation of the sum to the right, and a character: a uint8_t.
unfoldable pub check_sum_loop : (sum : ℕ) → Chars → ℕ
check_sum_loop sum [] = sum
check_sum_loop sum (c ∷ s) = check_sum_loop ((sum / 2 + sum % 2 * 128 + c) % 256) s

-- `garbage` is what upperName holds before: the copies stop at a terminator.
unfoldable pub get_check_sum_from_s_entry :
    (garbage : Chars) (entry_name entry_ext : Chars) → Option ℕ
get_check_sum_from_s_entry garbage name ext = elim (copy_at (take 11 garbage) 0 name 8) [
  | none ↦ none
  | some upper_name ↦ elim (copy_at upper_name 8 ext 3) [
    | none ↦ none
    | some both ↦ some (check_sum_loop 0 both)
  ]
]

-- The 13 characters of an entry: those of the name, a terminator if there is room for it, padding.
unfoldable pub long_chars : (k : ℕ) (name : Chars) → Chars
long_chars zero name = []
long_chars (suc k) [] = 0 ∷ replicate k 65535
long_chars (suc k) (c ∷ name) = c ∷ long_chars k name

-- struct longFileNameEntry, with the characters of its three fields in their order.
pub record LongFileNameEntry : Type 0 where
  pub order : ℕ
  pub check_sum : ℕ
  pub chars : Chars

unfoldable pub to_long_file_name : (name : Chars) (order check_sum : ℕ) → LongFileNameEntry
to_long_file_name name order check_sum = record {
  order = order;
  check_sum = check_sum;
  chars = long_chars 13 (text name);
}

-- The offset of a character: `groupOffsets[j] + 2 * l`.
abbrev pub char_offset : ℕ → ℕ
char_offset i = if ltb i 5 then 1 + 2 * i else if ltb i 11 then 4 + 2 * i else 6 + 2 * i

-- A byte of the uint16_t characters from number `first` on.
abbrev char_byte : Chars → (first i : ℕ) → ℕ
char_byte chars first i = get_or chars (first + i / 2) 0 / 2 ^ (8 * (i % 2)) % 2 ^ 8

-- The bytes of an entry on the volume.
unfoldable pub long_entry_bytes : LongFileNameEntry → Ram
long_entry_bytes e k =
    if k == 0
    then e.order
    else if ltb k 11
    then char_byte e.chars 0 (k - 1)
    else if k == 11
    then attribute_lnf
    else if k == 13
    then e.check_sum
    else if leb 14 k && ltb k 26
    then char_byte e.chars 5 (k - 14)
    else if leb 28 k && ltb k 32
    then char_byte e.chars 11 (k - 28)
    else 0

-- The `k` characters from number `i` on of an entry on the volume.
unfoldable pub lfn_chars : (entry : Ram) (k i : ℕ) → Chars
lfn_chars entry zero i = []
lfn_chars entry (suc k) i =
    (entry (char_offset i) + 2 ^ 8 * entry (char_offset i + 1)) ∷ lfn_chars entry k (i + 1)

-- All characters, of the last entry of the array first.
unfoldable pub chain_chars : List Ram → Chars
chain_chars [] = []
chain_chars (entry ∷ chain) = lfn_chars entry 13 0 ++ chain_chars chain

-- Up to the first padding, each as a char.
unfoldable pub until_padding : Chars → Chars
until_padding [] = []
until_padding (c ∷ s) = if c == 65535 then [] else c % 256 ∷ until_padding s

-- `chain` has the last entry first, in which order the loop takes them; what `oName` holds behind
-- the characters stays.
unfoldable pub long_file_name_entries_to_name : (chain : List Ram) → Chars
long_file_name_entries_to_name chain = until_padding (chain_chars chain)

-- `pointPos > 0`
abbrev pub point_pos : Chars → Option ℕ
point_pos name = elim (find_char name b'.') [
  | none ↦ none
  | some zero ↦ none
  | some (suc i) ↦ some (suc i)
]

-- The octal 020 of the source.
abbrev pub filler : ℕ
filler = 16

-- The base and the extension that a name is compared by. `none` is a store behind an array.
unfoldable pub short_parts : (name : Chars) → Option (Chars × Chars)
short_parts name = elim (point_pos name) [
  | none ↦ elim (copy_at (replicate 8 32) 0 name (strlen name)) [
    | none ↦ none
    | some base ↦ some (base, replicate 3 filler)
  ]
  | some i ↦ elim (copy_at (replicate 8 32) 0 name i) [
    | none ↦ none
    | some base ↦ elim (copy_at (replicate 3 filler) 0 (drop (i + 1) name) (strlen name - i - 1)) [
      | none ↦ none
      | some ext ↦ some (base, ext)
    ]
  ]
]

unfoldable pub compare_short_with_name : (entry : Ram) (name : Chars) → Option Bool
compare_short_with_name entry name = elim (short_parts name) [
  | none ↦ none
  | some (base, ext) ↦
      some
        (is_same (strncmp (entry_name entry) base 8) && is_same (strncmp (entry_ext entry) ext 3))
]

-- compareEntryWithEntryByFullName(a, b) == 0
unfoldable pub same_full_name : (a b : Ram) → Bool
same_full_name a b =
    is_same (strncmp (entry_name a) (entry_name b) 8)
    && is_same (strncmp (entry_ext a) (entry_ext b) 3)
