-- ===== src/Avahi/Packet/Numbers.antt =====
-- Numbers and strings through a packet and back.
use qt_gretio.Prelude.{
  ℕ, ◌+◌, ◌*◌, ◌/◌, ◌%◌, ◌≤◌, ◌<◌, ◌≡◌, refl, ap, false, List, ◌++◌, arith, ltb, length,
  length-append, drop-length,
}
use qt_gretio.Avahi.Packet.{
  Packet, done, two_bytes, four_bytes, append, append_uint16, append_uint32, consume_uint16,
  consume_uint32,
}

-- The packet when it is read from an offset on.
abbrev pub at : ℕ → Packet → Packet
at i p = record p { rindex = i }

-- The packet with more bytes.
abbrev pub grown : List ℕ → Packet → Packet
grown new p = record p { bytes = p.bytes ++ new }

pub append-grown :
    (new : List ℕ) (p : Packet)
    → length p.bytes + length new ≤ p.max_size
    → append new p ≡ done (length p.bytes) (grown new p)
unfolding append
append-grown new p h =
    let e : ltb p.max_size (length p.bytes + length new) ≡ false = ground arith in rw e refl

pub two_bytes_lem : (v : ℕ) → v < 65536 → v / 256 % 256 * 256 + v % 256 ≡ v
two_bytes_lem v h = omega arith

four_bytes_lem :
    (v : ℕ)
    → v < 4294967296
    → v / 16777216 % 256 * 16777216 + v / 65536 % 256 * 65536 + v / 256 % 256 * 256 + v % 256 ≡ v
four_bytes_lem v h = omega arith

consume_uint16-grown :
    (v : ℕ) (p : Packet)
    → v < 65536
    → let p' = grown (two_bytes v) p in
      consume_uint16 (at (length p.bytes) p') ≡ done v (at (length p.bytes + 2) p')
unfolding consume_uint16
consume_uint16-grown v p h =
    let fits : ltb (length (p.bytes ++ two_bytes v)) (length p.bytes + 2) ≡ false =
      ground (arith, length-append p.bytes (two_bytes v)) in
    rw (fits, drop-length p.bytes (two_bytes v))
      (ap (λ (n : ℕ). done n (at (length p.bytes + 2) (grown (two_bytes v) p))) (two_bytes_lem v h))

consume_uint32-grown :
    (v : ℕ) (p : Packet)
    → v < 4294967296
    → let p' = grown (four_bytes v) p in
      consume_uint32 (at (length p.bytes) p') ≡ done v (at (length p.bytes + 4) p')
unfolding consume_uint32
consume_uint32-grown v p h =
    let fits : ltb (length (p.bytes ++ four_bytes v)) (length p.bytes + 4) ≡ false =
      ground (arith, length-append p.bytes (four_bytes v)) in
    rw (fits, drop-length p.bytes (four_bytes v))
      (ap (λ (n : ℕ). done n (at (length p.bytes + 4) (grown (four_bytes v) p)))
        (four_bytes_lem v h))

-- A number of 16 or of 32 bits that is appended to a packet with room for it is read back from
-- where it was put, which leaves the read index behind it.
pub consume-append :
    (v w : ℕ) (p : Packet)
    → v < 65536
    → w < 4294967296
    → length p.bytes + 4 ≤ p.max_size
    → let i = length p.bytes in
      ((p' : Packet) × (append_uint16 v p ≡ done i p')
        × (consume_uint16 (at i p') ≡ done v (at (i + 2) p')))
      × ((p' : Packet) × (append_uint32 w p ≡ done i p')
          × (consume_uint32 (at i p') ≡ done w (at (i + 4) p')))
unfolding append_uint16 append_uint32
consume-append v w p h k room = (
  (grown (two_bytes v) p, append-grown (two_bytes v) p (omega arith), consume_uint16-grown v p h),
  (grown (four_bytes w) p, append-grown (four_bytes w) p (omega arith), consume_uint32-grown w p k),
)
