-- ===== src/Wire.antt =====
-- src/network/tcp_connection.cpp, and `SerialzedMessage` of src/network/message.hpp: a message as
-- bytes. The text archives of boost are a parameter, `Archive`; a connection carries one message, and
-- an error of the socket is a message that is cut short.
pub mod Fate
use thkvs.Base.{
  ℕ, ◌+◌, ◌*◌, ◌/◌, ◌%◌, List, [], ◌∷◌, ◌++◌, Bool, true, false, Option, none, some, length, take,
  ltb, ◌==◌, if◌then◌else◌, Text, map, ◌>>=◌,
}
use thkvs.Base.Int.{pos}
use thkvs.Message.{
  MType, m_sync, m_keepalive, m_ack, m_text, m_share, m_plainshare, m_op, m_opret, m_join, m_leave,
  m_setflag, m_move, m_datamove, m_addserver, m_removeserver, m_put, Message, header_of,
  new_data_move, new_move, new_remove_server, new_add_server, new_enable_flag, new_op, new_op_ret,
}
use thkvs.Message.Saved.{Field, FieldType, type_of, save_fields, load_fields, type_of_class}

-- What `text_oarchive` writes, for no object and for the members of one, and what `text_iarchive`
-- reads back as members of these types.
pub record Archive : Type 0 where
  pub start : Text
  pub write : List Field → Text
  pub read : List FieldType → Text → Option (List Field)

unfoldable pub type_code : MType → ℕ
type_code m_sync = 1
type_code m_keepalive = 2
type_code m_ack = 3
type_code m_text = 4
type_code m_share = 5
type_code m_plainshare = 6
type_code m_op = 7
type_code m_opret = 8
type_code m_join = 9
type_code m_leave = 10
type_code m_setflag = 11
type_code m_move = 12
type_code m_datamove = 13
type_code m_addserver = 14
type_code m_removeserver = 15

-- The cases of the switch in `handle_body`.
unfoldable pub type_of_code : ℕ → Option MType
type_of_code c =
    if c == 4
    then some m_text
    else if c == 7
    then some m_op
    else if c == 8
    then some m_opret
    else if c == 11
    then some m_setflag
    else if c == 14
    then some m_addserver
    else if c == 15
    then some m_removeserver
    else if c == 12
    then some m_move
    else if c == 13
    then some m_datamove
    else none

-- The object that `handle_body` loads into for a type; a member that its constructor leaves unset is
-- 0, "" or the first of an enumeration here, and is not read.
unfoldable pub new_object : MType → Option Message
new_object m_text =
    some
      (Message.text (record { header = record { kind = m_sync; to_ip = []; port = 0 }; msg = [] }))
new_object m_op = some (Message.operation (new_op m_sync [] 0 [] 0 m_put 0 [] []))
new_object m_opret = some (Message.reply (new_op_ret m_sync [] 0 m_put 0 0 [] (pos 0)))
new_object m_setflag = some (Message.enable_flag (new_enable_flag m_sync [] 0 [] 0 0 false))
new_object m_addserver = some (Message.add_server (new_add_server m_sync [] 0 [] 0 0 [] [] 0))
new_object m_removeserver = some (Message.remove_server (new_remove_server m_sync [] 0 [] 0 0 []))
new_object m_move = some (Message.move (new_move m_sync [] 0 [] 0 0 [] 0 0 0 false))
new_object m_datamove = some (Message.data_move (new_data_move m_sync [] 0 [] 0 0 [] []))
new_object _ = none

-- The text behind the header: the archive of the object, of no object for a type without a case, and
-- `none` where the cast gives a null pointer.
unfoldable pub write_body : Archive → Message → Option Text
unfolding type_code type_of_code save_fields
write_body a m = elim (type_of_code (type_code (header_of m).kind)) [
  | none ↦ some a.start
  | some kind ↦
      if type_code kind == type_code (type_of_class m) then some (a.write (save_fields m)) else none
]

-- The four bytes of a size on the machine, and what they are read as: an `int` that is made a
-- `size_t`, so that a negative one is a large number.
abbrev pub size_bytes : ℕ → Text
size_bytes size = size % 256 ∷ size / 256 % 256 ∷ size / 65536 % 256 ∷ size / 16777216 % 256 ∷ []

abbrev pub size_of_bytes : ℕ → ℕ → ℕ → ℕ → ℕ
size_of_bytes a b c d =
    let size = a + b * 256 + c * 65536 + d * 16777216 in
    if ltb size 0x8000_0000 then size else size + 0xffff_ffff_0000_0000

-- What `write_message` puts on the connection.
unfoldable pub write_message : Archive → Message → Option Text
unfolding write_body type_code
write_message a m = elim (write_body a m) [
  | none ↦ none
  | some body ↦ some (size_bytes (length body) ++ type_code (header_of m).kind ∷ body)
]

abbrev pub max_body_size : ℕ
max_body_size = 20480

-- What becomes of the bytes at the other end: a message or a null pointer in the receive queue, a
-- connection that is given up, a write behind the buffer, or an archive that does not fit the type.
pub data Received : Type 0 where
  pushed : Message → Received
  pushed_null given_up out_of_bounds archive_error : Received

-- A C string ends at its first zero byte.
unfoldable pub c_string : Text → Text
c_string [] = []
c_string (b ∷ bs) = if b == 0 then [] else b ∷ c_string bs

-- `ia >> object` for an object of the type.
unfoldable pub read_object : Archive → MType → Text → Option Message
unfolding new_object save_fields load_fields
read_object a kind bytes = do
  object ← new_object kind
  fields ← a.read (map type_of (save_fields object)) bytes
  load_fields object fields

unfoldable pub handle_body : Archive → ℕ → Text → Received
unfolding type_of_code c_string read_object
handle_body a code body = elim (type_of_code code) [
  | none ↦ pushed_null
  | some kind ↦ elim (read_object a kind (c_string body)) [
    | none ↦ archive_error
    | some m ↦ pushed m
  ]
]

-- `handle_header`, and `handle_body` once the body is there. The byte behind the body is set to 0,
-- which is outside of the buffer for the largest body.
unfoldable pub read_message : Archive → Text → Received
unfolding handle_body
read_message a (b0 ∷ b1 ∷ b2 ∷ b3 ∷ code ∷ bytes) =
    let size = size_of_bytes b0 b1 b2 b3 in
    if ltb max_body_size size
    then given_up
    else if ltb (length bytes) size
    then given_up
    else if size == max_body_size
    then out_of_bounds
    else handle_body a code (take size bytes)
read_message a _ = given_up
