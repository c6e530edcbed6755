-- ===== src/Fat/Table/Words.antt =====
-- The 32-bit words of the allocation table in the bytes of a volume.
use boba_os.Base.{ℕ, ◌+◌, ◌-◌, ◌^◌, ◌<◌, ◌≡◌, refl, ap, ◌∙◌, Ram, true, false, if◌then◌else◌, arith}
use boba_os.Memory.Copy.{within}
use boba_os.Fat.{le32, bytes32}

pub le32-eq :
    (f g : Ram) (a b : ℕ)
    → f a ≡ g b
    → f (a + 1) ≡ g (b + 1)
    → f (a + 2) ≡ g (b + 2)
    → f (a + 3) ≡ g (b + 3)
    → le32 f a ≡ le32 g b
le32-eq f g a b e0 e1 e2 e3 = rw (e0, e1, e2, e3) refl

le32-bytes32 : (v : ℕ) → v < 2 ^ 32 → le32 (bytes32 v) 0 ≡ v
le32-bytes32 v small = omega arith

-- Where four bytes are stored.
abbrev pub Stored : (m : Ram) (address : ℕ) (bytes m' : Ram) → Type 0
Stored m address bytes m' =
    (a : ℕ) → m' a ≡ (if within address 4 a then bytes (a - address) else m a)

Stored-inside :
    (m : Ram) (address : ℕ) (bytes m' : Ram)
    → Stored m address bytes m'
    → (k : ℕ) → k < 4
    → m' (address + k) ≡ bytes k
Stored-inside m address bytes m' stored k inside =
    let here : within address 4 (address + k) ≡ true = ground arith in
    stored (address + k) ∙ rw here (ap bytes (omega arith))

pub Stored-outside :
    (m : Ram) (address : ℕ) (bytes m' : Ram)
    → Stored m address bytes m'
    → (a : ℕ) → within address 4 a ≡ false
    → m' a ≡ m a
Stored-outside m address bytes m' stored a outside = stored a ∙ rw outside refl

pub le32-Stored :
    (m : Ram) (address v : ℕ) (m' : Ram)
    → v < 2 ^ 32
    → Stored m address (bytes32 v) m'
    → le32 m' address ≡ v
le32-Stored m address v m' small stored =
    let at = Stored-inside m address (bytes32 v) m' stored in
    le32-eq m' (bytes32 v) address 0 (ap m' (omega arith) ∙ at 0 (omega arith)) (at 1 (omega arith))
      (at 2 (omega arith)) (at 3 (omega arith))
    ∙ le32-bytes32 v small

pub le32-apart :
    (m : Ram) (address : ℕ) (bytes m' : Ram) (a : ℕ)
    → Stored m address bytes m'
    → ((k : ℕ) → k < 4 → within address 4 (a + k) ≡ false)
    → le32 m' a ≡ le32 m a
le32-apart m address bytes m' a stored apart =
    let same = Stored-outside m address bytes m' stored in
    le32-eq m' m a a (same a (ap (within address 4) (omega arith) ∙ apart 0 (omega arith)))
      (same (a + 1) (apart 1 (omega arith))) (same (a + 2) (apart 2 (omega arith)))
      (same (a + 3) (apart 3 (omega arith)))
