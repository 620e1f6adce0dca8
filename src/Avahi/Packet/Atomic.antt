-- ===== src/Avahi/Packet/Atomic.antt =====
-- Keys and records are appended as a whole or not at all.
use qt_gretio.Prelude.{
  ℕ, ◌+◌, ◌≤◌, ◌≡◌, refl, ◌∙◌, Bool, Option, none, some, List, arith, length, take, take_all,
}
use qt_gretio.Avahi.Record.{Key, Record}
use qt_gretio.Avahi.Packet.{Packet, Outcome, done, refused, aborted, P}
use qt_gretio.Avahi.Packet.Names.{Table, restore, cleanup_name_table}
use qt_gretio.Avahi.Packet.Records.{or_restore, append_key}
use qt_gretio.Avahi.Packet.Growth.{
  From, After, Keeps, bind-Keeps, append_name-Keeps, append_uint16-Keeps, pure-Keeps,
}

-- What an operation leaves that restores the size: on success the packet begins with what it was
-- and fits its size; when it is refused, the bytes are what they were.
abbrev pub Restores : {A : Type 0} → Packet → Outcome A → Type 0
Restores p (done x p') =
    (take (length p.bytes) p'.bytes ≡ p.bytes)
    × (length p'.bytes ≤ p.max_size)
    × (p'.max_size ≡ p.max_size)
Restores p (refused p') = (p'.bytes ≡ p.bytes) × (p'.max_size ≡ p.max_size)
Restores p aborted = Unit {0}

cleaned-bytes :
    (o : Option Table) (f : Table → Table) (p : Packet)
    → let p' : Packet = elim o as (λ _. Packet) [
      | none ↦ p
      | some table ↦ record p { name_table = some (f table) }
    ] in
      (p'.bytes ≡ p.bytes) × (p'.max_size ≡ p.max_size)
cleaned-bytes none f p = (refl, refl)
cleaned-bytes (some t) f p = (refl, refl)

restore-bytes :
    (n : ℕ) (p : Packet)
    → ((restore n p).bytes ≡ take n p.bytes) × ((restore n p).max_size ≡ p.max_size)
unfolding restore cleanup_name_table
restore-bytes n p = cleaned-bytes p.name_table _ (record p { bytes = take n p.bytes })

reached : (n : ℕ) → n ≤ n
reached n = omega arith

restored-Restores :
    {A : Type 0} (p : Packet) (o : Outcome A)
    → After p.bytes (length p.bytes) p.max_size (reached (length p.bytes)) o
    → Restores p (elim o [
      | done x p' ↦ done x p'
      | refused p' ↦ refused (restore (length p.bytes) p')
      | aborted ↦ aborted
    ])
restored-Restores p (done x p') h = (h.begins, h.fits, h.same_size)
restored-Restores p (refused p') h =
    let known = restore-bytes (length p.bytes) p' in (known.0 ∙ h.begins, known.1 ∙ h.same_size)
restored-Restores p aborted h = tt

start-From : (p : Packet) → length p.bytes ≤ p.max_size → From p.bytes (length p.bytes) p.max_size p
start-From p h = record {
  begins = take_all p.bytes;
  reaches = omega arith;
  same_size = refl;
  fits = h;
}

or_restore-Restores :
    {A : Type 0} (f : P A) (p : Packet)
    → length p.bytes ≤ p.max_size
    → Keeps p.bytes (length p.bytes) p.max_size (reached (length p.bytes)) f
    → Restores p (or_restore f p)
unfolding or_restore
or_restore-Restores f p h k = restored-Restores p (f p) (k p (start-From p h))

-- The two bytes of a length are written into the packet later, behind everything that was there.
module _ (b : List ℕ) (n m : ℕ) (below : length b ≤ n) where
  -- Two bytes have been put where the result says, and the packet reaches behind them.
  abbrev Reserved : Outcome ℕ → Type 0
  Reserved (done d p) = (n ≤ d) × From b (d + 2) m p
  Reserved (refused p) = From b n m p
  Reserved aborted = Unit {0}

-- The same of a key.
append_key-Restores :
    (k : Key) (unicast_response : Bool) (p : Packet)
    → length p.bytes ≤ p.max_size
    → Restores p (append_key k unicast_response p)
unfolding append_key
append_key-Restores k unicast_response p h =
    let below = reached (length p.bytes) in
    let n = length p.bytes in
    or_restore-Restores _ p h (
      bind-Keeps p.bytes n p.max_size below _ _
        (append_name-Keeps p.bytes n p.max_size below k.name)
        λ t.
          bind-Keeps p.bytes n p.max_size below _ _
            (append_uint16-Keeps p.bytes n p.max_size below k.type)
            λ _.
              bind-Keeps p.bytes n p.max_size below _ _
                (append_uint16-Keeps p.bytes n p.max_size below _)
                λ _. pure-Keeps p.bytes n p.max_size below t)
