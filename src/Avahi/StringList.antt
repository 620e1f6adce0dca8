-- ===== src/Avahi/StringList.antt =====
-- QtZeroConf/avahi-common/strlst.c: the lists of TXT strings. A node is the bytes of its text; the
-- list runs in the order of the `next` pointers, which is from the string added last. Allocation
-- does not fail.
pub mod Kept
pub mod Serialized
pub mod Roundtrip
use qt_gretio.Avahi.Domain.{to_lower, case_equal}
use qt_gretio.Prelude.{
  ℕ, zero, suc, ◌+◌, ◌-◌, min, Bool, true, false, ◌&&◌, ◌||◌, not, Option, none, some, List, [],
  ◌∷◌, ◌++◌, ltb, leb, ◌==◌, if◌then◌else◌, length, take, drop,
}

abbrev pub StringList : Type 0
StringList = List (List ℕ)

unfoldable pub add_arbitrary : StringList → List ℕ → StringList
add_arbitrary l text = text ∷ l

-- Strings of NUL-terminated texts, in order.
unfoldable pub add_many : StringList → List (List ℕ) → StringList
add_many r [] = r
add_many r (txt ∷ more) = add_many (add_arbitrary r txt) more

unfoldable pub new_from_array : List (List ℕ) → StringList
new_from_array array = add_many [] array

-- `r` is the list so far; the first argument is fuel, one for each byte.
unfoldable pub parse_loop : ℕ → List ℕ → StringList → Option StringList
parse_loop f [] r = some r
parse_loop zero (k ∷ c) r = none
parse_loop (suc f) (k ∷ c) r = elim (ltb (length c) k) [
  | true ↦ none
  | false ↦ parse_loop f (drop k c) (if ltb 0 k then add_arbitrary r (take k c) else r)
]

-- `none` is the failure -1.
unfoldable pub parse : List ℕ → Option StringList
parse bytes = parse_loop (length bytes) bytes []

-- The loop that reverses the pointers in place.
unfoldable pub reverse_loop : StringList → StringList → StringList
reverse_loop r [] = r
reverse_loop r (n ∷ l) = reverse_loop (n ∷ r) l

unfoldable pub reverse_list : StringList → StringList
reverse_list l = reverse_loop [] l

-- The size of the text that is written for a string of n bytes: truncated at 255, and to what fits.
abbrev pub clipped : ℕ → ℕ → ℕ
clipped n size = min (min n 255) (size - 1)

-- The loop over the reversed list, with the size that is left: the bytes that are written.
unfoldable pub serialize_loop : StringList → ℕ → List ℕ
serialize_loop [] size = []
serialize_loop (text ∷ l) size =
    let k = clipped (length text) size in
    let skipped = serialize_loop l size in
    let added = k ∷ take k text ++ serialize_loop l (size - (1 + k)) in
    if leb size 1 then [] else if length text == 0 then skipped else added

-- `avahi_string_list_serialize(l, data, size)` for a buffer: what is written to it.
unfoldable pub serialize : StringList → ℕ → List ℕ
serialize l size =
    let written = serialize_loop (reverse_list l) size in
    if length written == 0 && ltb 0 size then 0 ∷ [] else written

-- The same call without a buffer: the size that is needed.
unfoldable pub size_loop : StringList → ℕ → ℕ
size_loop [] used = used
size_loop (text ∷ l) used =
    size_loop l (if length text == 0 then used else used + (1 + min (length text) 255))

unfoldable pub serialized_size : StringList → ℕ
serialized_size l = let used = size_loop l 0 in if used == 0 then 1 else used

abbrev pub bytes_equal : List ℕ → List ℕ → Bool
bytes_equal [] [] = true
bytes_equal (a ∷ s) (b ∷ t) = a == b && bytes_equal s t
bytes_equal _ _ = false

unfoldable pub equal : StringList → StringList → Bool
equal [] [] = true
equal [] (b ∷ l) = false
equal (a ∷ l) [] = false
equal (a ∷ k) (b ∷ l) =
    let rest = equal k l in
    if not (length a == length b)
    then false
    else if not (length a == 0) && not (bytes_equal a b)
    then false
    else rest

unfoldable pub copy_loop : StringList → StringList → StringList
copy_loop r [] = r
copy_loop r (text ∷ l) = copy_loop (add_arbitrary r text) l

unfoldable pub copy : StringList → StringList
copy l = reverse_list (copy_loop [] l)

unfoldable pub count : StringList → ℕ
count [] = 0
count (text ∷ l) = count l + 1

-- The C string at the start of a text, which is NUL-terminated behind its size.
abbrev pub c_text : List ℕ → List ℕ
c_text [] = []
c_text (c ∷ s) = if c == 0 then [] else c ∷ c_text s

-- `strncasecmp(text, key, strlen(key)) == 0 && text[strlen(key)] == '='`.
abbrev pub has_key : List ℕ → List ℕ → Bool
has_key (c ∷ text) [] = c == b'='
has_key [] key = false
has_key (c ∷ text) (k ∷ key) = to_lower c == to_lower k && has_key text key

-- The rest of the list, from the node that is found.
unfoldable pub find : StringList → List ℕ → StringList
find [] key = []
find (text ∷ l) key =
    if case_equal (c_text text) key || has_key (c_text text) key then text ∷ l else find l key

-- A null value leaves the key alone.
unfoldable pub add_pair_arbitrary : StringList → List ℕ → Option (List ℕ) → StringList
add_pair_arbitrary l key none = add_arbitrary l key
add_pair_arbitrary l key (some value) = (key ++ b'=' ∷ value) ∷ l

-- `memchr(text, '=', size)`: what stands before and behind it.
unfoldable pub split_pair : List ℕ → Option (List ℕ × List ℕ)
split_pair [] = none
split_pair (c ∷ s) =
    if c == b'='
    then some ([], s)
    else (elim (split_pair s) [ none ↦ none | some (key, value) ↦ some (c ∷ key, value) ])

-- The key and the value; the key is copied as a C string.
unfoldable pub get_pair : List ℕ → List ℕ × Option (List ℕ)
get_pair text = elim (split_pair text) [
  | none ↦ (c_text text, none)
  | some (key, value) ↦ (c_text key, some value)
]
