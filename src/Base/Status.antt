-- ===== src/Base/Status.antt =====
-- status.h: the error codes, and the results of functions that return 0 or a negative code.
use mathlib.Core.Path.{◌≡◌, refl}
use mathlib.Core.Logic.{◌⊎◌, inl, inr}
use mathlib.Core.Bool.{Bool, true, false, not}
use boba_os.Base.Tests.{if◌then◌else◌}

pub data Errno : Type 0 where
  enmem eio eiarg enfound eiuse eof efsystem ewmode : Errno
  ehardware enopen eformat ediskspace elong enspace enimplemented : Errno

pub data Result {ℓ} (A : Type ℓ) : Type ℓ where
  ok : A → Result A
  err : Errno → Result A

pub ok-injective {ℓ} : {A : Type ℓ} {a b : A} → ok a ≡ ok b → a ≡ b
ok-injective e = cc

pub err-ne-ok {ℓ} : {A : Type ℓ} {e : Errno} {a : A} → ¬ (err e ≡ ok a)
err-ne-ok h = cc

-- A check that returns an error, passed.
pub guard-ok {ℓ} :
    {A : Type ℓ} (e : Errno) {a : A} (b : Bool) (r : Result A)
    → (if not b then err e else r) ≡ ok a
    → (b ≡ true) × (r ≡ ok a)
guard-ok e true r h = (refl, h)
guard-ok e false r h = absurd (err-ne-ok h)

pub check-ok {ℓ} :
    {A : Type ℓ} (e : Errno) {a : A} (b : Bool) (r : Result A)
    → (if b then err e else r) ≡ ok a
    → (b ≡ false) × (r ≡ ok a)
check-ok e true r h = absurd (err-ne-ok h)
check-ok e false r h = (refl, h)

pub Result-cases {ℓ} :
    {A : Type ℓ} (r : Result A) → ((e : Errno) × (r ≡ err e)) ⊎ ((a : A) × (r ≡ ok a))
Result-cases (ok a) = inr (a, refl)
Result-cases (err e) = inl (e, refl)
