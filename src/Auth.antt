-- ===== src/Auth.antt =====
-- SurrealJ2534Wrapper/gretioauthhandler.cpp: the class GretioAuthHandler, and the file of server
-- tokens that it keeps. `Link` is the handler with what it works on.
pub mod Gate
pub mod Tokens
use qt_gretio.Prelude.{
  ℕ, Bool, true, false, ◌&&◌, not, Option, none, some, List, [], ◌∷◌, if◌then◌else◌, pos, eqb_ℤ,
}
use qt_gretio.Qt.{Qt}
use qt_gretio.Socket.{Socket, write_message}

-- servertoken.json: its text if it exists, and whether it can be opened to read and to write.
pub record Disk (q : Qt) : Type 0 where
  pub file : Option q.Str
  pub can_read : Bool
  pub can_write : Bool

pub record Link (q : Qt) : Type 0 where
  pub socket : Socket q
  pub disk : Disk q
  pub auth_complete : Bool
  pub token : q.Str
  pub pubkey : q.Key

pub data Signal (q : Qt) : Type 0 where
  auth_success : Signal q
  auth_fail : q.Str → Signal q
  auth_pending : q.Str → Signal q
  message_to_next : q.Object → Signal q

unfoldable pub new_link : (q : Qt) → Socket q → Disk q → Link q
new_link q socket disk = record {
  socket = socket;
  disk = disk;
  auth_complete = false;
  token = q.null_str;
  pubkey = q.null_key;
}

module _ (q : Qt) where
  open q use {
    Str, Object, Value, Key, value, insert, of_int, of_bool, of_str, to_bool, to_str, is_str,
    is_null, text,
  }

  -- `readServersFile().object()`: a file that cannot be read, or is no JSON, is the empty object.
  unfoldable pub read_servers_file : Disk q → Object
  read_servers_file d =
      if d.can_read
      then (elim d.file [
        | none ↦ q.empty
        | some bytes ↦ elim (q.from_json bytes) [ none ↦ q.empty | some o ↦ o ]
      ])
      else q.empty

  unfoldable pub write_servers_file : Object → Disk q → Disk q
  write_servers_file o d = if d.can_write then record d { file = some (q.to_json true o) } else d

  unfoldable pub get_token_for_key : Disk q → Key → Str
  get_token_for_key d key =
      let lookup = value (read_servers_file d) (q.pem key) in
      if is_str lookup then to_str lookup else q.null_str

  unfoldable pub add_token : Key → Str → Disk q → Disk q
  add_token key token d =
      write_servers_file (insert (read_servers_file d) (q.pem key) (of_str token)) d

  abbrev pub is_response : Object → ℕ → Bool
  is_response json id =
      eqb_ℤ (q.to_int (pos 0) (value json "t")) (pos 2)
      && eqb_ℤ (q.to_int (pos 0) (value json "id")) (pos id)

  abbrev pub request_object : ℕ → Object
  request_object id = insert (insert q.empty "t" (of_int (pos 1))) "id" (of_int (pos id))

  abbrev pub write : Object → Link q → Link q
  write json l = record l { socket = (write_message q json l.socket).0 }

  -- "New Token": it is stored, and authentication is complete at once.
  unfoldable pub accept_token : Str → Link q → Link q
  accept_token token l = record l {
    token = token;
    disk = add_token l.pubkey token l.disk;
    auth_complete = true;
  }

  -- The signals stand in the order in which they are emitted.
  unfoldable pub input_message : Object → Link q → Link q × List (Signal q)
  unfolding accept_token write_message
  input_message json l =
      if l.auth_complete
      then (l, message_to_next json ∷ [])
      else if is_response json 80 && is_str (value json "challengeCode")
      then (l, auth_pending (to_str (value json "challengeCode")) ∷ [])
      else if is_response json 80
          && is_str (value json "token")
          && to_bool (value json "authResult")
          && is_null l.token
      then (accept_token (to_str (value json "token")) l, auth_success ∷ [])
      else if is_response json 80 && to_bool (value json "authResult")
      then (write (request_object 9000) l, [])
      else if is_response json 80 && not (to_bool (value json "authResult"))
      then (record l { auth_complete = false }, auth_fail (text "Bad Auth") ∷ [])
      else if is_response json 9000 && not (to_bool (value json "result"))
      then (
        record l { auth_complete = false },
        auth_fail (
              text
                "Failed to begin passthru session. Insufficient permissions or PT API is not enabled.")
            ∷ [],
      )
      else if is_response json 9000 && to_bool (value json "result")
      then (record l { auth_complete = true }, auth_success ∷ [])
      else (l, [])

  -- `key` is the public key of the server's certificate, if it has one.
  unfoldable pub on_connected : Option Key → Link q → Link q × List (Signal q)
  unfolding get_token_for_key write_message
  on_connected none l = (record l { token = q.null_str }, auth_fail (text "No Certificate") ∷ [])
  on_connected (some key) l =
      let token = get_token_for_key l.disk key in
      if is_null token
      then (
        write (insert (request_object 80) "requestNewToken" (of_bool true))
            (record l { token = q.null_str; pubkey = key }),
        [],
      )
      else (
        write (insert (request_object 80) "token" (of_str token))
            (record l { token = token; pubkey = key }),
        [],
      )
