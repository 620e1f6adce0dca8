-- ===== src/Auth/Tokens.antt =====
-- The file of tokens.
use text.Mathlib.Text.{◌==◌ as str_eq}
use text.Mathlib.TextPositions.{eq_refl as str_eq_refl}
use qt_gretio.Prelude.{◌≡◌, true, false, some, [], ◌∷◌, arith, if◌then◌else◌}
use qt_gretio.Qt.{Qt, QtLaws}
use qt_gretio.Socket.{write_message}
use qt_gretio.Auth.{
  Disk, Link, read_servers_file, write_servers_file, get_token_for_key, add_token, request_object,
  accept_token, on_connected,
}

module _ (q : Qt) (laws : QtLaws q) where
  open laws use {value-insert, to_str-of_str, is_str-of_str, from_json-to_json}

  read_servers_file-write_servers_file :
      (o : q.Object) (d : Disk q)
      → d.can_read ≡ true
      → d.can_write ≡ true
      → read_servers_file q (write_servers_file q o d) ≡ o
  unfolding read_servers_file write_servers_file
  read_servers_file-write_servers_file o d r w = ground (arith, from_json-to_json true o)

  -- If the file can be read and written, a token that is added for a key is found under that key,
  -- and the tokens of keys with another PEM text stay what they were.
  pub get_token_for_key-add_token :
      (key other : q.Key) (token : q.Str) (d : Disk q)
      → d.can_read ≡ true
      → d.can_write ≡ true
      → get_token_for_key q (add_token q key token d) other
        ≡ (if str_eq (q.pem key) (q.pem other) then token else get_token_for_key q d other)
  unfolding get_token_for_key add_token
  get_token_for_key-add_token key other token d r w =
      rw
        (
          get_token_for_key,
          read_servers_file-write_servers_file _ d r w,
          value-insert (read_servers_file q d) (q.pem key) (q.pem other) (q.of_str token),
        )
        (ground (arith, is_str-of_str token, to_str-of_str token))

  -- The token that the server hands out is the one that is presented to it when the socket next
  -- connects to a server with the same key.
  pub on_connected-accept_token :
      (token : q.Str) (l : Link q)
      → l.disk.can_read ≡ true
      → l.disk.can_write ≡ true
      → q.is_null token ≡ false
      → let l' = accept_token q token l in
        ((on_connected q (some l.pubkey) l').0.socket.sent
          ≡ q.to_json l.socket.debug (q.insert (request_object q 80) "token" (q.of_str token))
            ∷ l.socket.sent)
        × ((on_connected q (some l.pubkey) l').0.token ≡ token)
        × ((on_connected q (some l.pubkey) l').1 ≡ [])
  unfolding on_connected accept_token write_message
  on_connected-accept_token token l r w n = ground (
    arith,
    get_token_for_key-add_token l.pubkey l.pubkey token l.disk r w,
    str_eq_refl (q.pem l.pubkey),
  )
