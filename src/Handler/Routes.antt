-- ===== src/Handler/Routes.antt =====
-- Both halves of src/msg_handler.cpp together: what becomes, at the server it is addressed to, of
-- each message that a server sends.
use thkvs.Base.{ℕ, ◌≡◌, refl, List, [], ◌∷◌, ◌++◌, Bool, none, some, Text}
use thkvs.Base.Int.{ℤ}
use thkvs.Driver
use thkvs.Handler.{Turn, done, waits, handle}
use thkvs.Membership.{
  act_add_server, act_remove_server, add_server_return, remove_server_return, move_return,
}
use thkvs.Message.{Message, header_of}
use thkvs.Pause.{act_set_enable_flag, set_enable_flag_return}
use thkvs.Send.{
  send_put, send_get, send_set_enable_flag, send_set_enable_flag_ret, send_add_server,
  send_add_server_ret, send_remove_server, send_remove_server_ret, send_move, send_data_move,
}
use thkvs.State.{Node}
use thkvs.Store
use thkvs.Message.Saved.{type_of_class}

-- The call sends one message, of the type of its class, to that address, and whoever takes it does
-- `effect`.
abbrev pub Routes : (Text → Text) → (Node → Node) → Text → ℕ → (Node → Turn) → Type 0
Routes freed call ip port effect =
    (m : Message) × ((s : Node) → (call s).send_que ≡ s.send_que ++ m ∷ [])
    × ((header_of m).kind ≡ type_of_class m)
    × ((header_of m).to_ip ≡ ip)
    × ((header_of m).port ≡ port)
    × ((n : Node) → handle freed n m ≡ effect n)

-- Each request between servers is one message, of the type of its class, to the address it is meant
-- for, and whoever takes it makes the call it stands for, with the sender's arguments: for a put or
-- a get
-- a request is queued for the data thread, under the address of the sender; else the change is made,
-- and the sender is answered. The two requests that move entries are not among them.
pub requests_routed :
    (freed : Text → Text) (id : ℕ) (localip : Text) (localport : ℕ) (ip : Text) (port : ℕ)
    (key value : Text) (flag : Bool) (hostname hostip : Text) (hostport : ℕ)
    → Routes freed
        (λ s. send_put s id localip localport ip port key value)
        ip
        port
        (λ n. done (Store.put n id localip localport key value))
      × Routes freed
          (λ s. send_get s id localip localport ip port key)
          ip
          port
          (λ n. done (Store.get n id localip localport key))
      × Routes freed
          (λ s. send_set_enable_flag s id localip localport ip port flag)
          ip
          port
          (λ n. elim (act_set_enable_flag n flag) [
            | none ↦ waits
            | some n' ↦ done (send_set_enable_flag_ret n' id localip localport 0)
          ])
      × Routes freed
          (λ s. send_add_server s id localip localport ip port hostname hostip hostport)
          ip
          port
          (λ n. done (
            send_add_server_ret (act_add_server n hostname hostip hostport) id localip localport 0))
      × Routes freed
          (λ s. send_remove_server s id localip localport ip port hostname)
          ip
          port
          (λ n. done (send_remove_server_ret (act_remove_server n hostname) id localip localport 0))
unfolding handle send_put send_get send_set_enable_flag send_add_server send_remove_server
requests_routed freed id localip localport ip port key value flag hostname hostip hostport = (
  (_, λ s. refl, refl, refl, refl, λ n. refl),
  (_, λ s. refl, refl, refl, refl, λ n. refl),
  (_, λ s. refl, refl, refl, refl, λ n. refl),
  (_, λ s. refl, refl, refl, refl, λ n. refl),
  (_, λ s. refl, refl, refl, refl, λ n. refl),
)

-- The four messages of a move, each from the call that sends it: the request, the entries, the
-- word that they have arrived, and the word that the move is over. The status of the third is 0,
-- whatever the sender has passed.
pub moves_routed :
    (freed : Text → Text) (id : ℕ) (localip : Text) (localport : ℕ) (ip : Text) (port : ℕ)
    (dstip : Text) (dstport : ℕ) (hash_begin hash_end : ℕ) (remove : Bool) (key value : List Text)
    (status : ℕ)
    → Routes freed
        (λ s. send_move s id localip localport ip port dstip dstport hash_begin hash_end remove)
        ip
        port
        (λ n. done (
          Store.get_move_data n id hash_begin hash_end localip localport ip port dstip dstport
            remove))
      × Routes freed
          (λ s. Store.get_move_data_return s id localip localport ip port key value)
          ip
          port
          (λ n. done (Store.recv_move_data n id localip localport key value))
      × Routes freed
          (λ s. Store.recv_move_data_return s id ip port status)
          ip
          port
          (λ n. done (Store.move_data_return n id 0))
      × Routes freed
          (λ s. Store.move_data_return_return s id ip port status)
          ip
          port
          (λ n. done (move_return n id status))
unfolding handle send_move send_data_move Store.get_move_data_return Store.recv_move_data_return
    Store.move_data_return_return
moves_routed freed id localip localport ip port dstip dstport hash_begin hash_end remove key value
      status =
    (
      (_, λ s. refl, refl, refl, refl, λ n. refl),
      (_, λ s. refl, refl, refl, refl, λ n. refl),
      (_, λ s. refl, refl, refl, refl, λ n. refl),
      (_, λ s. refl, refl, refl, refl, λ n. refl),
    )

-- Each answer reaches the call that counts it, with its id, status and, for a read, its value and
-- timestamp.
pub replies_routed :
    (freed : Text → Text) (id : ℕ) (ip : Text) (port status : ℕ) (value : Text) (time_stamp : ℤ)
    → Routes freed
        (λ s. Store.put_return s id ip port status)
        ip
        port
        (λ n. done (Driver.put_return n id status))
      × Routes freed
          (λ s. Store.get_return s id ip port status value time_stamp)
          ip
          port
          (λ n. done (Driver.get_return freed n id status time_stamp value))
      × Routes freed
          (λ s. send_set_enable_flag_ret s id ip port status)
          ip
          port
          (λ n. done (set_enable_flag_return n id status))
      × Routes freed
          (λ s. send_add_server_ret s id ip port status)
          ip
          port
          (λ n. done (add_server_return n id status))
      × Routes freed
          (λ s. send_remove_server_ret s id ip port status)
          ip
          port
          (λ n. done (remove_server_return n id status))
unfolding handle Store.put_return Store.get_return send_set_enable_flag_ret send_add_server_ret
    send_remove_server_ret
replies_routed freed id ip port status value time_stamp = (
  (_, λ s. refl, refl, refl, refl, λ n. refl),
  (_, λ s. refl, refl, refl, refl, λ n. refl),
  (_, λ s. refl, refl, refl, refl, λ n. refl),
  (_, λ s. refl, refl, refl, refl, λ n. refl),
  (_, λ s. refl, refl, refl, refl, λ n. refl),
)
