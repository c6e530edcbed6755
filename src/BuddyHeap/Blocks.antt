-- ===== src/BuddyHeap/Blocks.antt =====
-- kheap_buddy.c: the lists of free blocks, splitting and merging.
use boba_os.Base.{
  ℕ, zero, suc, ◌+◌, ◌-◌, Option, none, some, Bool, true, false, not, ◌&&◌, ◌||◌, if◌then◌else◌,
  leb, ◌==◌, Result, ok, err, Errno,
}
use boba_os.BuddyHeap.{
  BlockEntry, Buddy, with_entry, lvl_table, first_of, get_higher_table_entry, get_lower_table_entry,
  get_buddy,
}

pub data RemoveType : Type 0 where
  split allocated_block merged : RemoveType

abbrev pub is_entry : Option ℕ → ℕ → Bool
is_entry none g = false
is_entry (some k) g = k == g

abbrev pub is_null : Option ℕ → Bool
is_null none = true
is_null (some k) = false

abbrev pub through : Buddy → Option ℕ → (BlockEntry → BlockEntry) → Buddy
through h none f = h
through h (some g) f = with_entry h g f

-- removeEntry on an entry that is not the first of its table.
unfoldable pub unlink_entry : Buddy → (g : ℕ) → Buddy
unlink_entry h g =
    let e = h.entries g in
    let first = first_of h e.lvl in
    let h1 = through h e.prev (λ x. record x { next = e.next }) in
    let h2 = through h1 e.next (λ x. record x { prev = e.prev }) in
    let h3 =
      if not (is_null e.next) && is_null e.prev && is_entry (h2.entries first).next g
      then with_entry h2 first (λ x. record x { next = e.next })
      else h2 in
    let h4 =
      if is_null e.prev && is_null e.next
      then with_entry h3 first (λ x. record x { has_entries = false; next = none })
      else h3 in
    with_entry h4 g (λ x. record x { next = none; prev = none })

-- removeEntry on the first entry of its table, which keeps its next.
unfoldable pub unlink_first : Buddy → (g : ℕ) → Buddy
unlink_first h g = elim (h.entries g).next [
  | none ↦ h
  | some n ↦
      with_entry (with_entry h n (λ x. record x { prev = none })) g
        (λ x. record x { has_entries = true })
]

abbrev pub mark_removed : RemoveType → BlockEntry → BlockEntry
mark_removed split x = record x { splitup = true }
mark_removed allocated_block x = record x { allocated = true }
mark_removed merged x = x

unfoldable pub remove_entry : Buddy → (g : ℕ) → RemoveType → Result Buddy
remove_entry h g type =
    let h1 = with_entry h g (λ x. record x { free = false }) in
    let h2 = if g == first_of h (h.entries g).lvl then unlink_first h1 g else unlink_entry h1 g in
    if (h.entries g).free then ok (with_entry h2 g (mark_removed type)) else err Errno.eiarg

-- The callers drop the result.
abbrev pub removed : Buddy → Result Buddy → Buddy
removed h (ok h') = h'
removed h (err e) = h

-- addEntry in front of the free entries that there are. `none` is a write through NULL.
unfoldable pub link_entry : Buddy → (g lvl : ℕ) → Option Buddy
link_entry h g lvl =
    let first = first_of h lvl in
    let f = h.entries first in
    elim f.next [
      | none ↦ none
      | some n ↦
          if g == first
          then some (with_entry h n (λ x. record x { prev = some first }))
          else some (
              with_entry
                (with_entry
                  (with_entry h g
                    (λ x. record x { prev = if f.free then some first else none; next = some n }))
                  n (λ x. record x { prev = some g }))
                first (λ x. record x { next = some g }))
    ]

abbrev pub finish_add : (g lvl : ℕ) → Option Buddy → Option Buddy
finish_add g lvl none = none
finish_add g lvl (some h) = some (
    with_entry (with_entry h (first_of h lvl) (λ x. record x { has_entries = true })) g
      (λ x. record x { free = true; splitup = false; allocated = false }))

-- addEntry. Its test of the address can not hold: the address would be below the table and above
-- its end at once.
unfoldable pub add_entry : Buddy → (g lvl : ℕ) → Option Buddy
add_entry h g lvl =
    let first = first_of h lvl in
    let h1 = with_entry h g (λ x. record x { lvl = lvl }) in
    let alone : Buddy =
      if first == g then h1 else with_entry h1 first (λ x. record x { next = some g }) in
    finish_add g lvl (if (h1.entries first).has_entries then link_entry h1 g lvl else some alone)

-- The free block of a level that is split, and where the level has none.
unfoldable pub block_to_split : Buddy → (lvl : ℕ) → Option ℕ
block_to_split h lvl =
    let f = h.entries (first_of h lvl) in
    if f.free then some (first_of h lvl) else if f.has_entries then f.next else none

-- Whether the pointer behind the new entry reaches the next table. Where there is none, lvlTable
-- holds NULL, and it always does.
abbrev pub reaches : Option ℕ → (g : ℕ) → Bool
reaches none g = true
reaches (some start) g = leb start g

-- The block in two. Its new entries are `new` and the one behind it.
unfoldable pub split_block : Buddy → (g new : ℕ) → Option (Option ℕ × Buddy)
split_block h g new =
    let lvl = (h.entries g).lvl in
    if reaches (lvl_table h (lvl + 2)) (new + 1)
    then some (none, h)
    else elim (add_entry (removed h (remove_entry h g split)) new (lvl + 1)) [
      | none ↦ none
      | some h1 ↦ elim (add_entry h1 (new + 1) (lvl + 1)) [
        | none ↦ none
        | some h2 ↦ some (some new, h2)
      ]
    ]

unfoldable pub split_entry_up : Buddy → (lvl : ℕ) → Option (Option ℕ × Buddy)
split_entry_up h lvl =
    if lvl + 1 == h.max_lvl then some (none, h) else elim (block_to_split h lvl) [
      | none ↦ some (none, h)
      | some g ↦ elim (get_higher_table_entry h g) [ none ↦ none | some new ↦ split_block h g new ]
    ]

-- splitAndReturn: the levels from `lvl` on, `k` of them. The entry is that of the last split.
unfoldable pub split_and_return :
    Buddy → (entry : Option ℕ) → (lvl k : ℕ) → Option (Option ℕ × Buddy)
split_and_return h entry lvl zero = some (entry, h)
split_and_return h entry lvl (suc k) = elim (split_entry_up h lvl) [
  | none ↦ none
  | some (entry', h') ↦ split_and_return h' entry' (lvl + 1) k
]

abbrev pub cleared : BlockEntry → BlockEntry
cleared x = record x { free = false; splitup = false; allocated = false; has_entries = false }

-- merge, on at most `rounds` levels.
unfoldable pub merge : (rounds : ℕ) → Buddy → (g1 g2 : ℕ) → Option Buddy
merge zero h g1 g2 = some h
merge (suc rounds) h g1 g2 =
    let lvl = (h.entries g1).lvl in
    let h1 = removed h (remove_entry h g1 merged) in
    let h2 = removed h1 (remove_entry h1 g2 merged) in
    let h3 = with_entry (with_entry h2 g1 cleared) g2 cleared in
    if (lvl == 0) || not (lvl == (h.entries g2).lvl)
    then some h
    else elim (get_lower_table_entry h3 g1) [
      | none ↦ none
      | some new ↦ elim (add_entry h3 new (lvl - 1)) [
        | none ↦ none
        | some h4 ↦
            let again = merge rounds h4 new (get_buddy h4 new) in
            if (h4.entries (get_buddy h4 new)).free then again else some h4
      ]
    ]
