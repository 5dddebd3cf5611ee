-- ===== src/Message/Fields.antt =====
-- The `serialize` functions of src/network/message.hpp: each is one list of the members, for an
-- archive that saves and for one that loads.
use thkvs.Base.{ℕ, List, Bool, Option, some, ◌>>=◌, Text}
use thkvs.Base.Int.{ℤ}
use thkvs.Message.{
  MType, MOpType, Header, TextMessage, OpDataMoveMessage, OpMoveMessage, OpRemoveServerMessage,
  OpAddServerMessage, OpEnableFlagMessage, OpMessage, OpRetMessage, Message,
}

-- What `ar & x` is for each type of a member: what `x` holds after it, and the archive.
pub record Ar (S : Type 0) : Type 0 where
  pub mtype : MType → S → Option (MType × S)
  pub optype : MOpType → S → Option (MOpType × S)
  pub int : ℕ → S → Option (ℕ × S)
  pub long_long : ℤ → S → Option (ℤ × S)
  pub bool : Bool → S → Option (Bool × S)
  pub string : Text → S → Option (Text × S)
  pub list : List Text → S → Option (List Text × S)

module _ {S : Type 0} (ar : Ar S) where
  unfoldable pub serialize_header : Header → S → Option (Header × S)
  serialize_header m s0 = do
    (kind, s1) ← ar.mtype m.kind s0
    (port, s2) ← ar.int m.port s1
    (to_ip, s3) ← ar.string m.to_ip s2
    some (record { kind = kind; to_ip = to_ip; port = port }, s3)

  unfoldable pub serialize_text : TextMessage → S → Option (TextMessage × S)
  unfolding serialize_header
  serialize_text m s0 = do
    (header, s1) ← serialize_header m.header s0
    (msg, s2) ← ar.string m.msg s1
    some (record { header = header; msg = msg }, s2)

  unfoldable pub serialize_data_move : OpDataMoveMessage → S → Option (OpDataMoveMessage × S)
  unfolding serialize_header
  serialize_data_move m s0 = do
    (header, s1) ← serialize_header m.header s0
    (id, s2) ← ar.int m.id s1
    (srcip, s3) ← ar.string m.srcip s2
    (srcport, s4) ← ar.int m.srcport s3
    (key, s5) ← ar.list m.key s4
    (value, s6) ← ar.list m.value s5
    some (
      record {
        header = header;
        id = id;
        srcip = srcip;
        srcport = srcport;
        key = key;
        value = value;
      },
      s6,
    )

  unfoldable pub serialize_move : OpMoveMessage → S → Option (OpMoveMessage × S)
  unfolding serialize_header
  serialize_move m s0 = do
    (header, s1) ← serialize_header m.header s0
    (id, s2) ← ar.int m.id s1
    (srcip, s3) ← ar.string m.srcip s2
    (srcport, s4) ← ar.int m.srcport s3
    (remote_srcip, s5) ← ar.string m.remote_srcip s4
    (remote_srcport, s6) ← ar.int m.remote_srcport s5
    (remote_dstip, s7) ← ar.string m.remote_dstip s6
    (remote_dstport, s8) ← ar.int m.remote_dstport s7
    (hash_begin, s9) ← ar.int m.hash_begin s8
    (hash_end, s10) ← ar.int m.hash_end s9
    (remove, s11) ← ar.bool m.remove s10
    some (
      record {
        header = header;
        id = id;
        srcip = srcip;
        srcport = srcport;
        remote_srcip = remote_srcip;
        remote_srcport = remote_srcport;
        remote_dstip = remote_dstip;
        remote_dstport = remote_dstport;
        hash_begin = hash_begin;
        hash_end = hash_end;
        remove = remove;
      },
      s11,
    )

  unfoldable pub serialize_remove_server :
      OpRemoveServerMessage → S → Option (OpRemoveServerMessage × S)
  unfolding serialize_header
  serialize_remove_server m s0 = do
    (header, s1) ← serialize_header m.header s0
    (id, s2) ← ar.int m.id s1
    (srcip, s3) ← ar.string m.srcip s2
    (srcport, s4) ← ar.int m.srcport s3
    (hostname, s5) ← ar.string m.hostname s4
    some (
      record { header = header; id = id; srcip = srcip; srcport = srcport; hostname = hostname },
      s5,
    )

  unfoldable pub serialize_add_server : OpAddServerMessage → S → Option (OpAddServerMessage × S)
  unfolding serialize_header
  serialize_add_server m s0 = do
    (header, s1) ← serialize_header m.header s0
    (id, s2) ← ar.int m.id s1
    (srcip, s3) ← ar.string m.srcip s2
    (srcport, s4) ← ar.int m.srcport s3
    (hostname, s5) ← ar.string m.hostname s4
    (hostip, s6) ← ar.string m.hostip s5
    (hostport, s7) ← ar.int m.hostport s6
    some (
      record {
        header = header;
        id = id;
        srcip = srcip;
        srcport = srcport;
        hostname = hostname;
        hostip = hostip;
        hostport = hostport;
      },
      s7,
    )

  unfoldable pub serialize_enable_flag : OpEnableFlagMessage → S → Option (OpEnableFlagMessage × S)
  unfolding serialize_header
  serialize_enable_flag m s0 = do
    (header, s1) ← serialize_header m.header s0
    (id, s2) ← ar.int m.id s1
    (flag, s3) ← ar.bool m.flag s2
    (srcip, s4) ← ar.string m.srcip s3
    (srcport, s5) ← ar.int m.srcport s4
    some (record { header = header; id = id; flag = flag; srcip = srcip; srcport = srcport }, s5)

  unfoldable pub serialize_op : OpMessage → S → Option (OpMessage × S)
  unfolding serialize_header
  serialize_op m s0 = do
    (header, s1) ← serialize_header m.header s0
    (op, s2) ← ar.optype m.op s1
    (id, s3) ← ar.int m.id s2
    (key, s4) ← ar.string m.key s3
    (value, s5) ← ar.string m.value s4
    (srcip, s6) ← ar.string m.srcip s5
    (srcport, s7) ← ar.int m.srcport s6
    some (
      record {
        header = header;
        op = op;
        id = id;
        key = key;
        value = value;
        srcip = srcip;
        srcport = srcport;
      },
      s7,
    )

  unfoldable pub serialize_op_ret : OpRetMessage → S → Option (OpRetMessage × S)
  unfolding serialize_header
  serialize_op_ret m s0 = do
    (header, s1) ← serialize_header m.header s0
    (op, s2) ← ar.optype m.op s1
    (id, s3) ← ar.int m.id s2
    (timestamp, s4) ← ar.long_long m.timestamp s3
    (status, s5) ← ar.int m.status s4
    (value, s6) ← ar.string m.value s5
    some (
      record {
        header = header;
        op = op;
        id = id;
        status = status;
        timestamp = timestamp;
        value = value;
      },
      s6,
    )

  -- The class that a message is of.
  unfoldable pub serialize : Message → S → Option (Message × S)
  unfolding serialize_text serialize_data_move serialize_move serialize_remove_server
      serialize_add_server serialize_enable_flag serialize_op serialize_op_ret
  serialize (Message.text m) s = do (m', s') ← serialize_text m s; some (Message.text m', s')
  serialize (Message.data_move m) s = do
    (m', s') ← serialize_data_move m s
    some (Message.data_move m', s')
  serialize (Message.move m) s = do (m', s') ← serialize_move m s; some (Message.move m', s')
  serialize (Message.remove_server m) s = do
    (m', s') ← serialize_remove_server m s
    some (Message.remove_server m', s')
  serialize (Message.add_server m) s = do
    (m', s') ← serialize_add_server m s
    some (Message.add_server m', s')
  serialize (Message.enable_flag m) s = do
    (m', s') ← serialize_enable_flag m s
    some (Message.enable_flag m', s')
  serialize (Message.operation m) s = do
    (m', s') ← serialize_op m s
    some (Message.operation m', s')
  serialize (Message.reply m) s = do (m', s') ← serialize_op_ret m s; some (Message.reply m', s')
