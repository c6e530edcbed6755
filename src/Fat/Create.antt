-- ===== src/Fat/Create.antt =====
-- fat32.c: the short name of a new file.
use boba_os.Base.{
  ℕ, zero, suc, ◌+◌, Ram, Option, none, some, Bool, true, false, ◌&&◌, if◌then◌else◌, ltb, leb,
  ◌==◌, [], ◌∷◌, ◌++◌, replicate, drop, set, ok, err, set,
}
use boba_os.Stream.{Driver}
use boba_os.PageHeap.{block_size}
use boba_os.Text.{Chars, strlen, strncmp, strncpy, upper_loop, is_number, to_number}
use boba_os.Fat.{Act, ◌>>=◌, ◌>>◌, undefined_here, defined, attempt, FatPrivate, kzalloc_or}
use boba_os.Fat.Names.{
  entry_at, entry_name, attributes, start_cluster, attribute_archive, is_same, copy_at, point_pos,
  filler,
}
use boba_os.Fat.Directory.{Entries, get_dir_entries}

-- toUpperCase into its block, which has a page of the heap.
unfoldable pub upper_name : (file_name : Chars) → Option Chars
upper_name file_name = upper_loop (replicate block_size 0) file_name (strlen file_name)

-- The name of at most 8 characters before the point.
unfoldable pub short_name : (o_name upper : Chars) (len : ℕ) → Option Chars
short_name o_name upper len =
    elim (copy_at (replicate 8 32 ++ b'.' ∷ filler ∷ filler ∷ filler ∷ 0 ∷ []) 0 upper len) [
      | none ↦ none
      | some base ↦ elim (copy_at base 9 (drop (len + 1) upper) 3) [
        | none ↦ none
        | some n ↦ copy_at o_name 0 n 13
      ]
    ]

-- low, next, max and foundAtLeastOne.
pub record Numbers : Type 0 where
  pub low : ℕ
  pub next : ℕ
  pub max : ℕ
  pub found : Bool

-- The number of a name that is used already.
unfoldable pub note_number : Numbers → (num : ℕ) → Numbers
note_number s num =
    if ltb num s.low
    then record s { low = num; found = true }
    else if ltb num s.next
    then record s { next = num; found = true }
    else if ltb num s.max
    then record s { max = num; found = true }
    else record s { found = true }

-- Whether an entry counts: a file whose name starts as `file_name` does, and has a number.
abbrev pub is_numbered : (file_name : Chars) (entry : Ram) → Bool
is_numbered file_name entry =
    (attributes entry == attribute_archive)
    && is_same (strncmp file_name (entry_name entry) 6)
    && (entry 6 == b'~')
    && is_number (entry 7)

unfoldable pub numbers_loop : (file_name : Chars) (entries : Ram) → Numbers → (k i : ℕ) → Numbers
numbers_loop file_name entries s zero i = s
numbers_loop file_name entries s (suc k) i =
    let entry = entry_at entries i in
    numbers_loop file_name entries
      (if is_numbered file_name entry then note_number s (to_number (entry 7)) else s) k (i + 1)

-- nextFreeNumber: `none` is -ENFOUND.
unfoldable pub next_free_number : Numbers → Option ℕ
next_free_number s =
    if ltb (1 + s.low) s.next
    then some s.low
    else if ltb (1 + s.next) s.max
    then some s.next
    else if s.found
    then none
    else some 1

-- The extension as it stands in `t`.
unfoldable pub extension : (upper : Chars) → Option ℕ → Option Chars
extension upper none = some (replicate 3 filler)
extension upper (some i) = strncpy (replicate 3 filler) (drop (i + 1) upper) 3

-- Six characters, a tilde and a number. `t` has no terminator behind it, but is copied to its size.
unfoldable pub numbered_name : (o_name upper : Chars) (point : Option ℕ) (number : ℕ) → Option Chars
numbered_name o_name upper point number = elim (copy_at o_name 0 upper 6) [
  | none ↦ none
  | some base ↦ elim (extension upper point) [
    | none ↦ none
    | some ext ↦ copy_at (set (set (set base 6 b'~') 7 (b'0' + number)) 8 b'.') 9 ext 3
  ]
]

-- `pointPos > 0 ? pointPos : strlen(fileName)`
abbrev pub base_length : (file_name : Chars) → ℕ
base_length file_name = elim (point_pos file_name) [ none ↦ strlen file_name | some i ↦ i ]

unfoldable pub name_with_number :
    (o_name upper : Chars) (point : Option ℕ) (number : Option ℕ) → Option Chars
name_with_number o_name upper point none = some o_name
name_with_number o_name upper point (some zero) = some o_name
name_with_number o_name upper point (some (suc number)) =
    numbered_name o_name upper point (suc number)

module _ (d : Driver) (alloc : ℕ → Bool) (p : FatPrivate) where
  -- The short name in `o_name`. The only caller drops the number that the function returns.
  unfoldable pub generate_short_file_name : (dir : Ram) (file_name o_name : Chars) → Act Chars
  generate_short_file_name dir file_name o_name = do
    kzalloc_or alloc undefined_here
    upper ← defined (upper_name file_name)
    elim (leb (base_length file_name) 8) [
      | true ↦ defined (short_name o_name upper (base_length file_name))
      | false ↦ attempt (get_dir_entries d alloc p (start_cluster dir)) >>= λ read.
          (let entries : Entries = elim read [ err e ↦ ((λ i. 0), 0) | ok entries ↦ entries ] in
            let nine : Numbers = record { low = 9; next = 9; max = 9; found = false } in
            defined (
              name_with_number o_name upper (point_pos file_name)
                (next_free_number (numbers_loop file_name entries.0 nine entries.1 0))))
    ]
