-- ===== src/Message.antt =====
-- src/network/message.hpp: the messages between servers. A class derived from `Message` is a record
-- that opens its base, and a `shared_ptr<Message>` is a value of `Message`: which record it holds is
-- what `dynamic_pointer_cast` finds out. The text archive that carries them is the library's.
pub mod Fields
pub mod Saved
use thkvs.Base.{ℕ, List, Bool, Text}
use thkvs.Base.Int.{ℤ}

pub data MType : Type 0 where
  m_sync m_keepalive m_ack m_text m_share m_plainshare m_op m_opret m_join m_leave : MType
  m_setflag m_move m_datamove m_addserver m_removeserver : MType

pub data MOpType : Type 0 where
  m_put m_putret m_get m_getret m_setflagret m_moveret m_datamoveret : MOpType
  m_addserverret m_removeserverret : MOpType

-- The base class: `type` is `kind` here.
pub record Header : Type 0 where
  pub kind : MType
  pub to_ip : Text
  pub port : ℕ

pub record TextMessage : Type 0 where
  pub header : Header
  pub open header use *
  pub msg : Text

pub record OpDataMoveMessage : Type 0 where
  pub header : Header
  pub open header use *
  pub id : ℕ
  pub srcip : Text
  pub srcport : ℕ
  pub key : List Text
  pub value : List Text

pub record OpMoveMessage : Type 0 where
  pub header : Header
  pub open header use *
  pub id : ℕ
  pub srcip : Text
  pub srcport : ℕ
  pub remote_srcip : Text
  pub remote_srcport : ℕ
  pub remote_dstip : Text
  pub remote_dstport : ℕ
  pub hash_begin : ℕ
  pub hash_end : ℕ
  pub remove : Bool

pub record OpRemoveServerMessage : Type 0 where
  pub header : Header
  pub open header use *
  pub id : ℕ
  pub srcip : Text
  pub srcport : ℕ
  pub hostname : Text

pub record OpAddServerMessage : Type 0 where
  pub header : Header
  pub open header use *
  pub id : ℕ
  pub srcip : Text
  pub srcport : ℕ
  pub hostname : Text
  pub hostip : Text
  pub hostport : ℕ

pub record OpEnableFlagMessage : Type 0 where
  pub header : Header
  pub open header use *
  pub id : ℕ
  pub flag : Bool
  pub srcip : Text
  pub srcport : ℕ

pub record OpMessage : Type 0 where
  pub header : Header
  pub open header use *
  pub op : MOpType
  pub id : ℕ
  pub key : Text
  pub value : Text
  pub srcip : Text
  pub srcport : ℕ

pub record OpRetMessage : Type 0 where
  pub header : Header
  pub open header use *
  pub op : MOpType
  pub id : ℕ
  pub status : ℕ
  pub timestamp : ℤ
  pub value : Text

pub data Message : Type 0 where
  text : TextMessage → Message
  data_move : OpDataMoveMessage → Message
  move : OpMoveMessage → Message
  remove_server : OpRemoveServerMessage → Message
  add_server : OpAddServerMessage → Message
  enable_flag : OpEnableFlagMessage → Message
  operation : OpMessage → Message
  reply : OpRetMessage → Message

-- `m->type`, `m->to_ip` and `m->port`.
abbrev pub header_of : Message → Header
header_of (text m) = m.header
header_of (data_move m) = m.header
header_of (move m) = m.header
header_of (remove_server m) = m.header
header_of (add_server m) = m.header
header_of (enable_flag m) = m.header
header_of (operation m) = m.header
header_of (reply m) = m.header

-- The constructors that take arguments.
abbrev pub new_data_move :
    MType → Text → ℕ → Text → ℕ → ℕ → List Text → List Text → OpDataMoveMessage
new_data_move kind to_ip port srcip srcport id key value = record {
  header = record { kind = kind; to_ip = to_ip; port = port };
  id = id;
  srcip = srcip;
  srcport = srcport;
  key = key;
  value = value;
}

-- The remote source is the server that the message goes to.
abbrev pub new_move : MType → Text → ℕ → Text → ℕ → ℕ → Text → ℕ → ℕ → ℕ → Bool → OpMoveMessage
new_move kind to_ip port srcip srcport id dstip dstport hash_begin hash_end remove = record {
  header = record { kind = kind; to_ip = to_ip; port = port };
  id = id;
  srcip = srcip;
  srcport = srcport;
  remote_srcip = to_ip;
  remote_srcport = port;
  remote_dstip = dstip;
  remote_dstport = dstport;
  hash_begin = hash_begin;
  hash_end = hash_end;
  remove = remove;
}

abbrev pub new_remove_server : MType → Text → ℕ → Text → ℕ → ℕ → Text → OpRemoveServerMessage
new_remove_server kind to_ip port srcip srcport id hostname = record {
  header = record { kind = kind; to_ip = to_ip; port = port };
  id = id;
  srcip = srcip;
  srcport = srcport;
  hostname = hostname;
}

abbrev pub new_add_server : MType → Text → ℕ → Text → ℕ → ℕ → Text → Text → ℕ → OpAddServerMessage
new_add_server kind to_ip port srcip srcport id hostname hostip hostport = record {
  header = record { kind = kind; to_ip = to_ip; port = port };
  id = id;
  srcip = srcip;
  srcport = srcport;
  hostname = hostname;
  hostip = hostip;
  hostport = hostport;
}

abbrev pub new_enable_flag : MType → Text → ℕ → Text → ℕ → ℕ → Bool → OpEnableFlagMessage
new_enable_flag kind to_ip port srcip srcport id flag = record {
  header = record { kind = kind; to_ip = to_ip; port = port };
  id = id;
  flag = flag;
  srcip = srcip;
  srcport = srcport;
}

abbrev pub new_op : MType → Text → ℕ → Text → ℕ → MOpType → ℕ → Text → Text → OpMessage
new_op kind to_ip port srcip srcport op id key value = record {
  header = record { kind = kind; to_ip = to_ip; port = port };
  op = op;
  id = id;
  key = key;
  value = value;
  srcip = srcip;
  srcport = srcport;
}

abbrev pub new_op_ret : MType → Text → ℕ → MOpType → ℕ → ℕ → Text → ℤ → OpRetMessage
new_op_ret kind to_ip port op id status value timestamp = record {
  header = record { kind = kind; to_ip = to_ip; port = port };
  op = op;
  id = id;
  status = status;
  timestamp = timestamp;
  value = value;
}
