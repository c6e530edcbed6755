-- ===== src/Text/Compare.antt =====
-- strcmp and strncmp against the equality and the order of texts.
use boba_os.Base.{ℕ, zero, suc, ◌<◌, ◌≡◌, ◌≢◌, refl, ◌↔◌, [], ◌∷◌, arith, take, All}
use boba_os.Memory.{Order, below, same, above}
use boba_os.Text.{Chars, text, char_order, strcmp, strncmp}

abbrev pub flip : Order → Order
flip below = above
flip same = same
flip above = below

char_order-ne : (c d : ℕ) → char_order c d ≢ same
unfolding char_order
char_order-ne c d = ground arith

char_order-flip : (c d : ℕ) → c < 256 → d < 256 → c ≢ d → char_order d c ≡ flip (char_order c d)
unfolding char_order
char_order-flip c d hc hd ne = ground arith

-- strcmp answers 0 exactly when the two texts are equal.
pub strcmp-same_iff : (s t : Chars) → (strcmp s t ≡ same) ↔ (text s ≡ text t)
unfolding strcmp text
strcmp-same_iff [] [] = (λ _. refl, λ _. refl)
strcmp-same_iff [] (d ∷ t) = ground (arith, char_order-ne 0 d)
strcmp-same_iff (c ∷ s) [] = ground (arith, char_order-ne c 0)
strcmp-same_iff (c ∷ s) (d ∷ t) = ground (arith, char_order-ne c d, strcmp-same_iff s t)

-- On bytes, strcmp with its arguments exchanged gives the opposite answer.
pub strcmp-flip :
    (s t : Chars) → All (λ c. c < 256) s → All (λ c. c < 256) t → strcmp t s ≡ flip (strcmp s t)
unfolding strcmp
strcmp-flip [] [] hs ht = refl
strcmp-flip [] (d ∷ t) hs ht = ground (arith, char_order-flip 0 d)
strcmp-flip (c ∷ s) [] hs ht = ground (arith, char_order-flip c 0)
strcmp-flip (c ∷ s) (d ∷ t) hs ht = ground (arith, char_order-flip c d, strcmp-flip s t hs.1 ht.1)

-- strncmp answers 0 exactly when the texts agree on their first `len` characters.
pub strncmp-same_iff :
    (s t : Chars) (len : ℕ) → (strncmp s t len ≡ same) ↔ (take len (text s) ≡ take len (text t))
unfolding strncmp text
strncmp-same_iff s t zero = (λ _. refl, λ _. refl)
strncmp-same_iff [] [] (suc len) = (λ _. refl, λ _. refl)
strncmp-same_iff [] (d ∷ t) (suc len) = ground (arith, char_order-ne 0 d)
strncmp-same_iff (c ∷ s) [] (suc len) = ground (arith, char_order-ne c 0)
strncmp-same_iff (c ∷ s) (d ∷ t) (suc len) =
    ground (arith, char_order-ne c d, strncmp-same_iff s t len)
