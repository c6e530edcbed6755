-- ===== src/Stream/Read.antt =====
-- diskStreamRead gives bytes, though the driver reads sectors.
use boba_os.Base.{
  ℕ, ◌+◌, ◌-◌, ◌*◌, ◌/◌, ◌%◌, ◌^◌, ◌≤◌, ◌<◌, ◌≡◌, ◌≢◌, refl, ap, ◌∙◌, Ram, add64, Bool, ltb, Result,
  ok, err, Errno, arith, ok-injective, err-ne-ok, guard-ok, check-ok,
}
use mathlib.Core.Path.{subst}
use boba_os.Stream.{Driver, Transfers, DiskStream, check_disk_stream, sectors, disk_stream_read}

-- The sectors reach to the end of the bytes, and no further than they must.
pub sectors-cover :
    (pos length : ℕ)
    → pos + length < 2 ^ 64
    → (add64 pos length % 512 ≡ 0 → sectors pos length * 512 ≡ pos + length)
      × (add64 pos length % 512 ≢ 0
          → (sectors pos length - 1) * 512 + add64 pos length % 512 ≡ pos + length)
unfolding sectors
sectors-cover pos length small = (λ e. ground arith, λ e. ground arith)

pub sectors-le : (pos length : ℕ) → pos + length < 2 ^ 64 → pos + length ≤ sectors pos length * 512
unfolding sectors
sectors-le pos length small = ground arith

module _ (d : Driver) (t : Transfers d) (m : Ram) where
  -- What a read of `length` bytes that succeeds gives.
  pub record HasRead (s : DiskStream) (length : ℕ) (out : Ram) (s' : DiskStream) : Type 0 where
    pub bytes : (i : ℕ) → i < length → out i ≡ m (s.position + i)
    pub position : s'.position ≡ s.position + length
    pub size : s'.size_bytes ≡ s.size_bytes

  module _ (s : DiskStream) (length : ℕ) (small : s.position + length < 2 ^ 64) where
    read-HasRead :
        (r : Result Ram) {out : Ram} {s' : DiskStream}
        → d.read m (s.position / 512) (sectors (s.position % 512) length) ≡ r
        → elim r as (λ r. Result (Ram × DiskStream)) [
          | err e ↦ err e
          | ok buffer ↦
              ok (
                λ i. buffer (s.position % 512 + i),
                record s { position = add64 s.position length },
              )
        ]
          ≡ ok (out, s')
        → HasRead s length out s'
    read-HasRead (err x) run e = absurd (err-ne-ok e)
    read-HasRead (ok buffer) run e =
        let cover = sectors-le (s.position % 512) length (omega arith) in
        subst (λ p. HasRead s length p.0 p.1) (ok-injective e)
          (record {
            bytes = λ i b.
                t.read_sectors m (s.position / 512) (sectors (s.position % 512) length) buffer run
                  (s.position % 512 + i) (omega arith)
                ∙ ap m (omega arith);
            position = omega arith;
            size = refl;
          })

    -- A read that succeeds gives the bytes of the medium from the stream's position on, wherever
    -- that lies in its sector, and moves the stream behind them.
    pub disk_stream_read-HasRead :
        (got : Bool) {out : Ram} {s' : DiskStream}
        → disk_stream_read d m s length got ≡ ok (out, s')
        → HasRead s length out s'
    unfolding disk_stream_read
    disk_stream_read-HasRead got e =
        let (open_, e1) = guard-ok Errno.enmem (check_disk_stream s) _ e in
        let (fits, e2) = check-ok Errno.enmem (ltb s.size_bytes (add64 s.position length)) _ e1 in
        let (got', e3) = guard-ok Errno.enmem got _ e2 in
        read-HasRead (d.read m (s.position / 512) (sectors (s.position % 512) length)) refl e3
