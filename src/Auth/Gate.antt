-- ===== src/Auth/Gate.antt =====
-- What the authentication handler lets through.
use qt_gretio.Prelude.{
  ℕ, String, ◌≡◌, ◌⊎◌, true, false, List, [], ◌∷◌, arith, ℤ, pos, eqb_ℤ, eqb_ℤ→eq,
}
use qt_gretio.Qt.{Qt}
use qt_gretio.Auth.{Link, Signal, message_to_next, input_message}

module _ {q : Qt} where
  -- No message is forwarded.
  abbrev pub HoldsBack : List (Signal q) → Type 0
  HoldsBack [] = Unit {0}
  HoldsBack (message_to_next json ∷ ss) = ⊥
  HoldsBack (s ∷ ss) = HoldsBack ss

module _ (q : Qt) where
  abbrev int_at : q.Object → String → ℤ
  int_at json k = q.to_int (pos 0) (q.value json k)

  -- A message by which the server grants a session: a response that hands out a token to a client
  -- that presented none, or one that begins the pass-through session.
  pub record Grants (json : q.Object) (l : Link q) : Type 0 where
    pub is_response : int_at json "t" ≡ pos 2
    pub service :
        ((int_at json "id" ≡ pos 80)
          × (q.is_str (q.value json "token") ≡ true)
          × (q.to_bool (q.value json "authResult") ≡ true)
          × (q.is_null l.token ≡ true))
        ⊎ ((int_at json "id" ≡ pos 9000) × (q.to_bool (q.value json "result") ≡ true))

  eqb_ℤ-pos→eq : (z : ℤ) (n : ℕ) → eqb_ℤ z (pos n) ≡ true → z ≡ pos n
  eqb_ℤ-pos→eq z n h = eqb_ℤ→eq z (pos n) h

  input_message-Grants :
      (json : q.Object) (l : Link q)
      → l.auth_complete ≡ false
      → (input_message q json l).0.auth_complete ≡ true
      → Grants json l
  unfolding input_message
  input_message-Grants json l h e = ground (
    arith,
    eqb_ℤ-pos→eq (int_at json "t") 2,
    eqb_ℤ-pos→eq (int_at json "id") 80,
    eqb_ℤ-pos→eq (int_at json "id") 9000,
  )

  -- Before authentication is complete no message is forwarded, and only a message that grants a
  -- session completes it; from then on every message is forwarded, and nothing else happens.
  pub input_message-gate :
      (json : q.Object) (l : Link q)
      → (l.auth_complete ≡ false
          → HoldsBack (input_message q json l).1
            × ((input_message q json l).0.auth_complete ≡ true → Grants json l))
        × (l.auth_complete ≡ true → input_message q json l ≡ (l, message_to_next json ∷ []))
  unfolding input_message
  input_message-gate json l =
      (λ h. (ground arith, input_message-Grants json l h), λ h. ground arith)
