-- ===== src/Handler.antt =====
-- The receiving half of src/msg_handler.cpp: one turn of the loop of `run`, from a received message
-- to the calls of `Driver` and `Data`, and the answer.
pub mod Routes
use thkvs.Base.{ℕ, [], Bool, Option, none, some, Text}
use thkvs.Driver
use thkvs.Membership.{
  act_add_server, act_remove_server, add_server_return, remove_server_return, move_return,
}
use thkvs.Message.{
  MType, MOpType, Message, OpMessage, OpRetMessage, OpEnableFlagMessage, OpAddServerMessage,
  OpRemoveServerMessage, OpMoveMessage, OpDataMoveMessage, header_of,
}
use thkvs.Pause.{act_set_enable_flag, set_enable_flag_return}
use thkvs.Queue.{pop}
use thkvs.Send.{send_set_enable_flag_ret, send_add_server_ret, send_remove_server_ret}
use thkvs.State.{Node}
use thkvs.Store

-- How a turn ends: it is done, it waits on a condition, or it reads through a null pointer.
pub data Turn : Type 0 where
  done : Node → Turn
  waits null_pointer : Turn

unfoldable pub handle_get : Node → OpMessage → Node
unfolding Store.get
handle_get n opm = Store.get n opm.id opm.srcip opm.srcport opm.key

unfoldable pub handle_put : Node → OpMessage → Node
unfolding Store.put
handle_put n opm = Store.put n opm.id opm.srcip opm.srcport opm.key opm.value

unfoldable pub handle_set_flag : Node → OpEnableFlagMessage → Turn
unfolding act_set_enable_flag send_set_enable_flag_ret
handle_set_flag n oefm = elim (act_set_enable_flag n oefm.flag) [
  | none ↦ waits
  | some n' ↦ done (send_set_enable_flag_ret n' oefm.id oefm.srcip oefm.srcport 0)
]

unfoldable pub handle_add_server : Node → OpAddServerMessage → Node
unfolding act_add_server send_add_server_ret
handle_add_server n oasm =
    send_add_server_ret (act_add_server n oasm.hostname oasm.hostip oasm.hostport) oasm.id
      oasm.srcip oasm.srcport 0

unfoldable pub handle_remove_server : Node → OpRemoveServerMessage → Node
unfolding act_remove_server send_remove_server_ret
handle_remove_server n orsm =
    send_remove_server_ret (act_remove_server n orsm.hostname) orsm.id orsm.srcip orsm.srcport 0

unfoldable pub handle_move : Node → OpMoveMessage → Node
unfolding Store.get_move_data
handle_move n omm =
    Store.get_move_data n omm.id omm.hash_begin omm.hash_end omm.srcip omm.srcport omm.remote_srcip
      omm.remote_srcport omm.remote_dstip omm.remote_dstport omm.remove

unfoldable pub handle_data_move : Node → OpDataMoveMessage → Node
unfolding Store.recv_move_data
handle_data_move n odmm = Store.recv_move_data n odmm.id odmm.srcip odmm.srcport odmm.key odmm.value

unfoldable pub handle_get_ret : (Text → Text) → Node → OpRetMessage → Node
unfolding Driver.get_return
handle_get_ret freed n opm = Driver.get_return freed n opm.id opm.status opm.timestamp opm.value

unfoldable pub handle_put_ret : Node → OpRetMessage → Node
unfolding Driver.put_return
handle_put_ret n opm = Driver.put_return n opm.id opm.status

unfoldable pub handle_set_flag_ret : Node → OpRetMessage → Node
unfolding set_enable_flag_return
handle_set_flag_ret n opm = set_enable_flag_return n opm.id opm.status

unfoldable pub handle_add_server_ret : Node → OpRetMessage → Node
unfolding add_server_return
handle_add_server_ret n opm = add_server_return n opm.id opm.status

unfoldable pub handle_remove_server_ret : Node → OpRetMessage → Node
unfolding remove_server_return
handle_remove_server_ret n opm = remove_server_return n opm.id opm.status

unfoldable pub handle_data_move_ret : Node → OpRetMessage → Node
unfolding Store.move_data_return
handle_data_move_ret n opm = Store.move_data_return n opm.id opm.status

unfoldable pub handle_move_ret : Node → OpRetMessage → Node
unfolding move_return
handle_move_ret n opm = move_return n opm.id opm.status

-- `dynamic_pointer_cast<…>(m)`
abbrev cast_op : Message → Option OpMessage
cast_op (Message.operation m) = some m
cast_op _ = none

abbrev cast_op_ret : Message → Option OpRetMessage
cast_op_ret (Message.reply m) = some m
cast_op_ret _ = none

abbrev cast_enable_flag : Message → Option OpEnableFlagMessage
cast_enable_flag (Message.enable_flag m) = some m
cast_enable_flag _ = none

abbrev cast_add_server : Message → Option OpAddServerMessage
cast_add_server (Message.add_server m) = some m
cast_add_server _ = none

abbrev cast_remove_server : Message → Option OpRemoveServerMessage
cast_remove_server (Message.remove_server m) = some m
cast_remove_server _ = none

abbrev cast_move : Message → Option OpMoveMessage
cast_move (Message.move m) = some m
cast_move _ = none

abbrev cast_data_move : Message → Option OpDataMoveMessage
cast_data_move (Message.data_move m) = some m
cast_data_move _ = none

-- A handler takes the pointer that the cast returned.
abbrev deref : {A : Type 0} → Option A → (A → Turn) → Turn
deref none handle = null_pointer
deref (some m) handle = handle m

handle_op : Node → OpMessage → Node
unfolding handle_get handle_put
handle_op n opm = elim opm.op [
  | MOpType.m_get ↦ handle_get n opm
  | MOpType.m_put ↦ handle_put n opm
  | _ ↦ n
]

handle_op_ret : (Text → Text) → Node → OpRetMessage → Node
unfolding handle_get_ret handle_put_ret handle_set_flag_ret handle_add_server_ret
    handle_remove_server_ret handle_data_move_ret handle_move_ret
handle_op_ret freed n oprm = elim oprm.op [
  | MOpType.m_getret ↦ handle_get_ret freed n oprm
  | MOpType.m_putret ↦ handle_put_ret n oprm
  | MOpType.m_setflagret ↦ handle_set_flag_ret n oprm
  | MOpType.m_addserverret ↦ handle_add_server_ret n oprm
  | MOpType.m_removeserverret ↦ handle_remove_server_ret n oprm
  | MOpType.m_datamoveret ↦ handle_data_move_ret n oprm
  | MOpType.m_moveret ↦ handle_move_ret n oprm
  | _ ↦ n
]

-- The switch on the message's type; `freed` is as for `Driver.get_return`.
unfoldable pub handle : (Text → Text) → Node → Message → Turn
unfolding handle_op handle_op_ret handle_set_flag handle_add_server handle_remove_server handle_move
    handle_data_move
handle freed n m = elim (header_of m).kind [
  | MType.m_op ↦ deref (cast_op m) (λ opm. done (handle_op n opm))
  | MType.m_opret ↦ deref (cast_op_ret m) (λ oprm. done (handle_op_ret freed n oprm))
  | MType.m_setflag ↦ deref (cast_enable_flag m) (handle_set_flag n)
  | MType.m_addserver ↦ deref (cast_add_server m) (λ oasm. done (handle_add_server n oasm))
  | MType.m_removeserver ↦ deref (cast_remove_server m) (λ orsm. done (handle_remove_server n orsm))
  | MType.m_move ↦ deref (cast_move m) (λ omm. done (handle_move n omm))
  | MType.m_datamove ↦ deref (cast_data_move m) (λ odmm. done (handle_data_move n odmm))
  | _ ↦ done n
]

-- `m = manager::recv();` and the switch.
unfoldable pub run_once : (Text → Text) → Node → Turn
unfolding handle pop
run_once freed n = elim (pop n.recv_que) [
  | none ↦ waits
  | some (m, rest) ↦ handle freed (record n { recv_que = rest }) m
]
