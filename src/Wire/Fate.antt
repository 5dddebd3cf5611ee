-- ===== src/Wire/Fate.antt =====
-- src/network/tcp_connection.cpp: what becomes of a message that one server writes and another reads.
use thkvs.Base.{
  ℕ, ◌+◌, ◌*◌, ◌/◌, ◌%◌, ◌<◌, ◌≡◌, refl, ap, [], ◌∷◌, ◌++◌, false, some, length, take, All, ltb,
  ◌==◌, if◌then◌else◌, Text, map, arith,
}
use thkvs.Message.{Message, header_of}
use thkvs.Message.Saved.{type_of, type_of_class, save_fields, load_fields-save_fields}
use thkvs.Wire.{
  Archive, type_code, type_of_code, write_body, new_object, read_object, size_bytes, size_of_bytes,
  write_message, max_body_size, pushed, given_up, out_of_bounds, c_string, handle_body,
  read_message,
}

c_string_plain : (bs : Text) → All (λ b. 0 < b) bs → c_string bs ≡ bs
unfolding c_string
c_string_plain [] a = refl
c_string_plain (b ∷ bs) a =
    let e : (b == 0) ≡ false = ground (arith, a.0) in rw e (ap (◌∷◌ b) (c_string_plain bs a.1))

take-length : (bs : Text) → take (length bs) bs ≡ bs
take-length [] = refl
take-length (b ∷ bs) = ap (◌∷◌ b) (take-length bs)

size_of_bytes-size_bytes :
    (size : ℕ)
    → size < 0x8000_0000
    → size_of_bytes (size % 256) (size / 256 % 256) (size / 65536 % 256) (size / 16777216 % 256)
      ≡ size
size_of_bytes-size_bytes size l =
    let sum : size % 256
          + size / 256 % 256 * 256
          + size / 65536 % 256 * 65536
          + size / 16777216 % 256 * 16777216
        ≡ size =
      omega arith in
    rw sum (ground arith)

type_of_code-class :
    (m : Message) → type_of_code (type_code (type_of_class m)) ≡ some (type_of_class m)
unfolding type_of_code type_code
type_of_code-class (Message.text m) = refl
type_of_code-class (Message.operation m) = refl
type_of_code-class (Message.reply m) = refl
type_of_code-class (Message.enable_flag m) = refl
type_of_code-class (Message.add_server m) = refl
type_of_code-class (Message.remove_server m) = refl
type_of_code-class (Message.move m) = refl
type_of_code-class (Message.data_move m) = refl

new_object-class :
    (m : Message)
    → (old : Message) × (new_object (type_of_class m) ≡ some old)
      × (type_of_class m ≡ type_of_class old)
unfolding new_object
new_object-class (Message.text m) = (_, refl, refl)
new_object-class (Message.operation m) = (_, refl, refl)
new_object-class (Message.reply m) = (_, refl, refl)
new_object-class (Message.enable_flag m) = (_, refl, refl)
new_object-class (Message.add_server m) = (_, refl, refl)
new_object-class (Message.remove_server m) = (_, refl, refl)
new_object-class (Message.move m) = (_, refl, refl)
new_object-class (Message.data_move m) = (_, refl, refl)

module _ (a : Archive) (m : Message) (typed : (header_of m).kind ≡ type_of_class m) where
  abbrev pub body : Text
  body = a.write (save_fields m)

  -- The archive loads the members as it saved them, when it knows their types.
  abbrev pub IsReadable : Type 0
  IsReadable = a.read (map type_of (save_fields m)) body ≡ some (save_fields m)

  read_object-typed : IsReadable → read_object a (type_of_class m) body ≡ some m
  unfolding read_object
  read_object-typed readable =
      let (old, e, same) = new_object-class m in
      let (types, loaded) = load_fields-save_fields m old same in
      rw (read_object, e, ← types, readable, loaded) refl

  write_body-typed : write_body a m ≡ some body
  unfolding write_body
  write_body-typed = rw (write_body, typed, type_of_code-class m) (ground arith)

  handle_body-typed :
      All (λ b. 0 < b) body
      → IsReadable
      → handle_body a (type_code (type_of_class m)) body ≡ pushed m
  unfolding handle_body
  handle_body-typed plain readable =
      rw (handle_body, type_of_code-class m, c_string_plain body plain, read_object-typed readable)
        refl

  -- A message whose type is that of its class, and whose archive has fewer than 2 ^ 31 bytes, none of
  -- them zero, and gives back the members of the message, is written, and its bytes become at the
  -- other end: the
  -- message, if the archive has fewer than 20480 bytes; a write behind the buffer, if it has 20480;
  -- and nothing, if it has more.
  pub message_fate :
      length body < 0x8000_0000
      → All (λ b. 0 < b) body
      → IsReadable
      → (bytes : Text) × (write_message a m ≡ some bytes)
        × (read_message a bytes ≡ (
            if ltb (length body) max_body_size
            then pushed m
            else if length body == max_body_size
            then out_of_bounds
            else given_up))
  unfolding write_message read_message handle_body
  message_fate short plain readable =
      let n = length body in
      (
        size_bytes n ++ type_code (header_of m).kind ∷ body,
        rw (write_message, write_body-typed) refl,
        rw
            (
              read_message,
              size_of_bytes-size_bytes n short,
              typed,
              take-length body,
              handle_body-typed plain readable,
            )
            (ground arith),
      )
