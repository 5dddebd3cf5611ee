-- ===== src/State.antt =====
-- The state of one server process: the singletons `Driver` (src/driver.h), `Data` (src/data.h) and
-- the globals of `Worker` (src/worker.h) and of `manager` (src/network/manager.hpp). An `int` or an
-- `unsigned` is its bit pattern below 2 ^ 32.
use thkvs.Base.{ℕ, List, [], Bool, false, Text, minus_one}
use thkvs.Base.Int.{ℤ, negsuc}
use thkvs.Message.{Message}
use thkvs.Queue.{MsgQueue}
use thkvs.Ring.{NodeMap}

pub record Host : Type 0 where
  pub hostname : Text
  pub ip : Text
  pub port : ℕ
  pub count : ℕ

-- The answers to one request so far.
pub record SyncEntry : Type 0 where
  pub tot : ℕ
  pub suc : ℕ
  pub timestamp : ℤ
  pub value : Text

pub record EnableFlagEntry : Type 0 where
  pub cnt : ℕ
  pub id : ℕ

-- THKVS_N, THKVS_R and THKVS_W: copies of a key, answers for a read and for a write.
abbrev pub replica_n : ℕ
replica_n = 3

abbrev pub read_r : ℕ
read_r = 2

abbrev pub write_w : ℕ
write_w = 2

pub record Driver : Type 0 where
  pub node_map : NodeMap
  pub entries : List (ℕ × SyncEntry)
  pub host_list : List Host
  pub localhost : Host
  pub enable_flag_entry : EnableFlagEntry
  pub enable_flag : Bool
  pub opid : ℕ
  pub server_cnt : ℕ
  pub enable_cnt : ℕ
  pub move_cnt : ℕ

pub data JobType : Type 0 where
  j_put j_get j_result : JobType

-- A field that a constructor leaves unset is 0 or "" here; none of them is read.
pub record Job : Type 0 where
  pub kind : JobType
  pub id : ℕ
  pub status : ℕ
  pub key : Text
  pub value : Text

pub record Result : Type 0 where
  pub id : ℕ
  pub status : ℕ
  pub result : Text

pub record Worker : Type 0 where
  pub job_que : MsgQueue Job
  pub res_que : MsgQueue Result
  pub job_id_map : List (ℕ × ℕ)
  pub job_id : ℕ
  pub test_cnt : ℕ
  pub display_flag : Bool

-- `Data::KeyValue`, a request to the data thread. A field that its constructor leaves unset is 0,
-- "" or empty here.
pub record KeyValue : Type 0 where
  pub id : ℕ
  pub op : ℕ
  pub ip : Text
  pub port : ℕ
  pub key : Text
  pub value : Text
  pub begin : ℕ
  pub end : ℕ
  pub remotesrcip : Text
  pub remotesrcport : ℕ
  pub remotedestip : Text
  pub remotedestport : ℕ
  pub key_vec : List Text
  pub value_vec : List Text

-- The part of `Data` that other threads touch: its queue, and what is kept of each move.
pub record Data : Type 0 where
  pub que : MsgQueue KeyValue
  pub mip : List (ℕ × Text)
  pub mpo : List (ℕ × ℕ)
  pub mre : List (ℕ × Bool)
  pub mbe : List (ℕ × ℕ)
  pub men : List (ℕ × ℕ)

pub record Node : Type 0 where
  pub driver : Driver
  pub worker : Worker
  pub store : Data
  pub recv_que : MsgQueue Message
  pub send_que : MsgQueue Message

-- `SyncEntry` as it is declared: no answers, timestamp -1.
abbrev pub new_sync_entry : SyncEntry
new_sync_entry = record { tot = 0; suc = 0; timestamp = negsuc 0; value = [] }

abbrev pub new_enable_flag_entry : EnableFlagEntry
new_enable_flag_entry = record { cnt = 0; id = minus_one }

abbrev pub new_worker : Worker
new_worker = record {
  job_que = [];
  res_que = [];
  job_id_map = [];
  job_id = 0;
  test_cnt = 0;
  display_flag = false;
}

abbrev pub new_data : Data
new_data = record { que = []; mip = []; mpo = []; mre = []; mbe = []; men = [] }
