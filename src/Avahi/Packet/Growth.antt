-- ===== src/Avahi/Packet/Growth.antt =====
-- What appending to a packet leaves of it.
use qt_gretio.Prelude.{
  ℕ, zero, suc, ◌+◌, ◌-◌, ◌/◌, ◌%◌, ◌≤◌, ◌≡◌, refl, ap, ◌∙◌, inl, inr, Bool, true, false, Option,
  none, some, List, [], ◌∷◌, ◌++◌, arith, ltb, leb, ◌==◌, if◌then◌else◌, Bool-cases, length, take,
  drop, length-append, length-take, length-drop,
}
use qt_gretio.Avahi.Label.{unescape_label}
use qt_gretio.Avahi.StringList.{serialize, serialized_size}
use qt_gretio.Avahi.Record.{Rdata, generic, srv, ptr, hinfo, txt, a, aaaa}
use qt_gretio.Avahi.Packet.{
  Packet, Outcome, done, refused, aborted, P, ◌>>=◌, patch, two_bytes, append, append_uint16,
  append_uint32, append_bytes, append_string,
}
use qt_gretio.Avahi.Packet.Names.{
  Table, restore, cleanup_name_table, note_name, find_name, append_name_loop, append_name,
}
use qt_gretio.Avahi.Packet.Records.{append_rdata, write_length, pure}

module _ {A : Type 0} where
  pub take-append : (n : ℕ) (xs ys : List A) → n ≤ length xs → take n (xs ++ ys) ≡ take n xs
  take-append zero xs ys h = refl
  take-append (suc n) [] ys h = absurd (omega arith)
  take-append (suc n) (x ∷ xs) ys h = ap (λ t. x ∷ t) (take-append n xs ys (omega arith))

  take-take : (n m : ℕ) (xs : List A) → n ≤ m → take n (take m xs) ≡ take n xs
  take-take zero m xs h = refl
  take-take (suc n) zero xs h = absurd (omega arith)
  take-take (suc n) (suc m) [] h = refl
  take-take (suc n) (suc m) (x ∷ xs) h = ap (λ t. x ∷ t) (take-take n m xs (omega arith))

-- The packet begins with the bytes b, has at least n of them, and fits its size m.
pub record From (b : List ℕ) (n m : ℕ) (p : Packet) : Type 0 where
  pub begins : take (length b) p.bytes ≡ b
  pub reaches : n ≤ length p.bytes
  pub same_size : p.max_size ≡ m
  pub fits : length p.bytes ≤ m

module _ (b : List ℕ) (n m : ℕ) (below : length b ≤ n) where
  abbrev pub After : {A : Type 0} → Outcome A → Type 0
  After (done x p) = From b n m p
  After (refused p) = From b n m p
  After aborted = Unit {0}

  abbrev pub Keeps : {A : Type 0} → P A → Type 0
  Keeps f = (p : Packet) → From b n m p → After (f p)

  step-After :
      {A B : Type 0} (o : Outcome A) (k : A → Packet → Outcome B) (r : Packet → Packet)
      → After o
      → ((x : A) (p : Packet) → From b n m p → After (k x p))
      → ((p : Packet) → From b n m p → From b n m (r p))
      → After (elim o [ done x p ↦ k x p | refused p ↦ refused (r p) | aborted ↦ aborted ])
  step-After (done x p) k r h f g = f x p h
  step-After (refused p) k r h f g = g p h
  step-After aborted k r h f g = tt

  pub bind-Keeps :
      {A B : Type 0} (f : P A) (g : A → P B) → Keeps f → ((x : A) → Keeps (g x)) → Keeps (f >>= g)
  unfolding ◌>>=◌
  bind-Keeps f g h k p s = step-After (f p) g (λ p'. p') (h p s) k (λ p' t. t)

  pub append-Keeps : (new : List ℕ) → Keeps (append new)
  unfolding append
  append-Keeps new p s = elim (Bool-cases (ltb p.max_size (length p.bytes + length new))) [
    | inl full ↦ rw full s
    | inr room ↦ rw room (record {
      begins = take-append (length b) p.bytes new (omega (arith, s.reaches)) ∙ s.begins;
      reaches = omega (arith, s.reaches, length-append p.bytes new);
      same_size = s.same_size;
      fits = ground (arith, s.same_size, length-append p.bytes new);
    })
  ]

  cleaned-From :
      (o : Option Table) (f : Table → Table) (p : Packet)
      → From b n m p
      → From b n m (elim o [ none ↦ p | some table ↦ record p { name_table = some (f table) } ])
  cleaned-From none f p s = s
  cleaned-From (some t) f p s = record {
    begins = s.begins;
    reaches = s.reaches;
    same_size = s.same_size;
    fits = s.fits;
  }

  restore-From : (size : ℕ) (p : Packet) → n ≤ size → From b n m p → From b n m (restore size p)
  unfolding restore cleanup_name_table
  restore-From size p h s =
      cleaned-From p.name_table _ (record p { bytes = take size p.bytes })
        (record {
          begins = take-take (length b) size p.bytes (omega arith) ∙ s.begins;
          reaches = omega (arith, s.reaches, length-take size p.bytes);
          same_size = s.same_size;
          fits = omega (arith, s.fits, length-take size p.bytes);
        })

  note_name-From :
      (name : List ℕ) (d : ℕ) (p : Packet) → From b n m p → From b n m (note_name name d p)
  unfolding note_name
  note_name-From name d p s = record {
    begins = s.begins;
    reaches = s.reaches;
    same_size = s.same_size;
    fits = s.fits;
  }

  elim-After :
      {A B : Type 0} (o : Option A) (x : Outcome B) (k : A → Outcome B)
      → After x
      → ((y : A) → After (k y))
      → After (elim o [ none ↦ x | some y ↦ k y ])
  elim-After none x k h f = h
  elim-After (some y) x k h f = f y

  if-After :
      {A : Type 0} (c : Bool) (x y : Outcome A) → After x → After y → After (if c then x else y)
  if-After true x y h k = h
  if-After false x y h k = k

  pointed-After :
      {A : Type 0} (c d : Bool) (x y : Outcome A)
      → After x
      → After y
      → After (if c then aborted else if d then x else y)
  pointed-After true d x y h k = tt
  pointed-After false true x y h k = h
  pointed-After false false x y h k = k

  append_string-Keeps : (t : List ℕ) → Keeps (append_string t)
  unfolding append_string
  append_string-Keeps t = append-Keeps _

  append_name_loop-Keeps :
      (f saved : ℕ) (name : List ℕ) → n ≤ saved → Keeps (append_name_loop f saved name)
  unfolding append_name_loop
  append_name_loop-Keeps f saved [] h p s =
      step-After (append (0 ∷ []) p) (λ d p'. done saved p') (restore saved)
        (append-Keeps (0 ∷ []) p s) (λ d p' t. t) (λ p' t. restore-From saved p' h t)
  append_name_loop-Keeps zero saved (c ∷ name) h p s = tt
  append_name_loop-Keeps (suc f) saved (c ∷ name) h p s =
      let plain =
        elim-After (unescape_label 64 (c ∷ name)) _ _ (restore-From saved p h s) λ (label, rest).
          step-After (append_string label p) _ (restore saved) (append_string-Keeps label p s)
            (λ d p' t.
              append_name_loop-Keeps f saved rest h (note_name (c ∷ name) d p')
                (note_name-From (c ∷ name) d p' t))
            (λ p' t. restore-From saved p' h t) in
      elim-After (find_name (c ∷ name) p) _ _ plain λ idx.
        pointed-After {A = ℕ} (leb (length p.bytes) idx) (ltb idx 0x4000) _ _
          (step-After (append ((0xC0 + idx / 256) ∷ (idx % 256) ∷ []) p) (λ d p'. done saved p')
            (λ p'. p') (append-Keeps ((0xC0 + idx / 256) ∷ (idx % 256) ∷ []) p s) (λ d p' t. t)
            (λ p' t. t))
          plain

  pub append_name-Keeps : (name : List ℕ) → Keeps (append_name name)
  unfolding append_name
  append_name-Keeps name p s =
      append_name_loop-Keeps (length name) (length p.bytes) name s.reaches p s

  pub append_uint16-Keeps : (v : ℕ) → Keeps (append_uint16 v)
  unfolding append_uint16
  append_uint16-Keeps v = append-Keeps _

  pub append_uint32-Keeps : (v : ℕ) → Keeps (append_uint32 v)
  unfolding append_uint32
  append_uint32-Keeps v = append-Keeps _

  append_bytes-Keeps : (x : List ℕ) → Keeps (append_bytes x)
  unfolding append_bytes
  append_bytes-Keeps x p s = if-After (length x == 0) _ _ tt (append-Keeps x p s)

  pub pure-Keeps : {A : Type 0} (x : A) → Keeps (pure x)
  pure-Keeps x p s = s

  pub append_rdata-Keeps : (r : Rdata) → Keeps (append_rdata r)
  unfolding append_rdata
  append_rdata-Keeps (ptr name) = append_name-Keeps name
  append_rdata-Keeps (srv priority weight port name) =
      bind-Keeps _ _ (append_uint16-Keeps priority) λ _.
        bind-Keeps _ _ (append_uint16-Keeps weight)
          λ _. bind-Keeps _ _ (append_uint16-Keeps port) λ _. append_name-Keeps name
  append_rdata-Keeps (hinfo cpu os) =
      bind-Keeps _ _ (append_string-Keeps cpu) λ _. append_string-Keeps os
  append_rdata-Keeps (txt l) = append-Keeps (serialize l (serialized_size l))
  append_rdata-Keeps (a x) = append_bytes-Keeps x
  append_rdata-Keeps (aaaa x) = append_bytes-Keeps x
  append_rdata-Keeps (generic x) = λ p s. elim (Bool-cases (length x == 0)) [
    | inl nothing ↦ rw (append_rdata, nothing) s
    | inr something ↦ rw (append_rdata, something) (append_bytes-Keeps x p s)
  ]

  patched-From :
      (l v : ℕ) (p : Packet)
      → length b ≤ l
      → l + 2 ≤ n
      → From b n m p
      → From b n m (record p { bytes = patch l (two_bytes v) p.bytes })
  patched-From l v p h k s =
      let front = take l p.bytes in
      let back = drop (l + 2) p.bytes in
      let front_length : length front ≡ l = omega (arith, s.reaches, length-take l p.bytes) in
      let whole : length (front ++ two_bytes v ++ back) ≡ length p.bytes = omega (
        arith,
        s.reaches,
        length-append (front ++ two_bytes v) back,
        length-append front (two_bytes v),
        length-drop (l + 2) p.bytes,
      ) in
      record {
        begins =
            take-append (length b) (front ++ two_bytes v) back
              (omega (arith, length-append front (two_bytes v)))
            ∙ take-append (length b) front (two_bytes v) (omega arith)
            ∙ take-take (length b) l p.bytes h
            ∙ s.begins;
        reaches = omega (arith, s.reaches, whole);
        same_size = s.same_size;
        fits = omega (arith, s.fits, whole);
      }

  pub write_length-Keeps : (l start : ℕ) → length b ≤ l → l + 2 ≤ n → Keeps (write_length l start)
  unfolding write_length
  write_length-Keeps l start h k p s = elim (Bool-cases (ltb 0xFFFF (length p.bytes - start))) [
    | inl long ↦ rw long tt
    | inr short ↦ rw short (patched-From l (length p.bytes - start) p h k s)
  ]
