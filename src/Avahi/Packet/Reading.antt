-- ===== src/Avahi/Packet/Reading.antt =====
-- Names are read within the packet and within the buffer.
use qt_gretio.Prelude.{
  ℕ, ◌+◌, ◌≤◌, ◌<◌, ◌≡◌, Bool, true, false, Option, none, some, List, [], ◌∷◌, if◌then◌else◌,
  length,
}
use qt_gretio.Avahi.Packet.{Packet, Outcome, done, refused, aborted}

-- A name that is read is shorter than its buffer of size n, and what it takes of the packet from
-- `base` on ends within the first `len` bytes.
abbrev pub IsRead : ℕ → ℕ → ℕ → Option (ℕ × List ℕ) → Type 0
IsRead n base len none = Unit {0}
IsRead n base len (some (r, t)) = (length t < n) × (base + r ≤ len)

-- Where the loop stands: before a pointer is followed, what was read ends at `idx`.
abbrev Stands : ℕ → ℕ → ℕ → Bool → ℕ → Type 0
Stands base len idx true ret = base + ret ≤ len
Stands base len idx false ret = base + ret ≡ idx

-- The dot in front of a label that is not the first.
abbrev dot_of : Bool → List ℕ
dot_of is_first = if is_first then [] else b'.' ∷ []

abbrev pub NameRead : ℕ → Packet → Outcome (List ℕ) → Type 0
NameRead l p (done t p') = (length t < l) × (p'.rindex ≤ length p.bytes) × (p'.bytes ≡ p.bytes)
NameRead l p (refused p') = p' ≡ p
NameRead l p aborted = Unit {0}
