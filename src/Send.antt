-- ===== src/Send.antt =====
-- The sending half of src/msg_handler.cpp, and `manager::send` of src/network/manager.cpp: each call
-- builds one message and puts it at the end of the send queue.
use thkvs.Base.{ℕ, List, [], Bool, Text}
use thkvs.Base.Int.{ℤ, pos}
use thkvs.Message.{
  Message, data_move, move, remove_server, add_server, enable_flag, operation, reply, m_op, m_opret,
  m_setflag, m_move, m_datamove, m_addserver, m_removeserver, m_put, m_putret, m_get, m_getret,
  m_setflagret, m_moveret, m_datamoveret, m_addserverret, m_removeserverret, new_data_move,
  new_move, new_remove_server, new_add_server, new_enable_flag, new_op, new_op_ret,
}
use thkvs.Queue.{push}
use thkvs.State.{Node}

unfoldable pub send : Node → Message → Node
unfolding push
send n msg = record n { send_que = push n.send_que msg }

unfoldable pub send_put : Node → ℕ → Text → ℕ → Text → ℕ → Text → Text → Node
unfolding send
send_put n id localip localport ip port key value =
    send n (operation (new_op m_op ip port localip localport m_put id key value))

unfoldable pub send_get : Node → ℕ → Text → ℕ → Text → ℕ → Text → Node
unfolding send
send_get n id localip localport ip port key =
    send n (operation (new_op m_op ip port localip localport m_get id key []))

unfoldable pub send_put_ret : Node → ℕ → Text → ℕ → ℕ → Node
unfolding send
send_put_ret n id ip port status =
    send n (reply (new_op_ret m_opret ip port m_putret id status [] (pos 0)))

unfoldable pub send_get_ret : Node → ℕ → Text → ℕ → ℕ → Text → ℤ → Node
unfolding send
send_get_ret n id ip port status value time_stamp =
    send n (reply (new_op_ret m_opret ip port m_getret id status value time_stamp))

unfoldable pub send_set_enable_flag : Node → ℕ → Text → ℕ → Text → ℕ → Bool → Node
unfolding send
send_set_enable_flag n id localip localport ip port flag =
    send n (enable_flag (new_enable_flag m_setflag ip port localip localport id flag))

unfoldable pub send_set_enable_flag_ret : Node → ℕ → Text → ℕ → ℕ → Node
unfolding send
send_set_enable_flag_ret n id ip port status =
    send n (reply (new_op_ret m_opret ip port m_setflagret id status [] (pos 0)))

unfoldable pub send_add_server : Node → ℕ → Text → ℕ → Text → ℕ → Text → Text → ℕ → Node
unfolding send
send_add_server n id localip localport ip port hostname hostip hostport =
    send n (
      add_server (new_add_server m_addserver ip port localip localport id hostname hostip hostport))

unfoldable pub send_add_server_ret : Node → ℕ → Text → ℕ → ℕ → Node
unfolding send
send_add_server_ret n id ip port status =
    send n (reply (new_op_ret m_opret ip port m_addserverret id status [] (pos 0)))

unfoldable pub send_remove_server : Node → ℕ → Text → ℕ → Text → ℕ → Text → Node
unfolding send
send_remove_server n id localip localport ip port hostname =
    send n (remove_server (new_remove_server m_removeserver ip port localip localport id hostname))

unfoldable pub send_remove_server_ret : Node → ℕ → Text → ℕ → ℕ → Node
unfolding send
send_remove_server_ret n id ip port status =
    send n (reply (new_op_ret m_opret ip port m_removeserverret id status [] (pos 0)))

unfoldable pub send_move : Node → ℕ → Text → ℕ → Text → ℕ → Text → ℕ → ℕ → ℕ → Bool → Node
unfolding send
send_move n id localip localport srcip srcport dstip dstport hash_begin hash_end remove = send n (
    move
      (new_move m_move srcip srcport localip localport id dstip dstport hash_begin hash_end remove))

unfoldable pub send_data_move : Node → ℕ → Text → ℕ → Text → ℕ → List Text → List Text → Node
unfolding send
send_data_move n id localip localport ip port key value =
    send n (data_move (new_data_move m_datamove ip port localip localport id key value))

unfoldable pub send_data_move_ret : Node → ℕ → Text → ℕ → ℕ → Node
unfolding send
send_data_move_ret n id ip port status =
    send n (reply (new_op_ret m_opret ip port m_datamoveret id status [] (pos 0)))

unfoldable pub send_move_ret : Node → ℕ → Text → ℕ → ℕ → Node
unfolding send
send_move_ret n id ip port status =
    send n (reply (new_op_ret m_opret ip port m_moveret id status [] (pos 0)))
