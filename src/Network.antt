-- ===== src/Network.antt =====
-- src/network/manager.cpp, tcp_connection.cpp and tcp_server.cpp: the servers, and the connections that
-- carry their messages. A connection carries one message, in any order with the others; which server
-- accepts one at an address, if any, is a parameter.
pub mod Sums
pub mod Messages
pub mod Balance
pub mod Carried
use thkvs.Base.{
  ℕ, zero, suc, List, [], ◌∷◌, ◌++◌, Option, none, some, Text, get_elem?, modify, ◌>>=◌,
}
use thkvs.Message.{Message, header_of}
use thkvs.Queue.{push, pop}
use thkvs.Send.{send}
use thkvs.State.{Node}
use thkvs.Wire.{Archive, Received, pushed, given_up, write_message, read_message}

-- `manager::recv` and `manager::get_writable_msg`: they wait while the queue is empty.
unfoldable pub recv : Node → Option (Message × Node)
unfolding pop
recv n = do (msg, rest) ← pop n.recv_que; some (msg, record n { recv_que = rest })

unfoldable pub get_writable_msg : Node → Option (Message × Node)
unfolding pop
get_writable_msg n = do (msg, rest) ← pop n.send_que; some (msg, record n { send_que = rest })

-- `manager::recvQue.push(msgToRecv)`
unfoldable pub push_received : Message → Node → Node
unfolding push
push_received msg n = record n { recv_que = push n.recv_que msg }

-- What `from_string` and `socket_.connect` do with an address: they throw, they return an error, or
-- the server with this number accepts.
pub data Connected : Type 0 where
  no_address refused : Connected
  accepted : ℕ → Connected

-- The servers, and the bytes on each open connection with the server that reads them. The last three
-- are the history: what was sent, what a handler has taken, with the server, and which connections broke.
pub record Network : Type 0 where
  pub servers : List Node
  pub connections : List (ℕ × Text)
  pub sent : List Message
  pub taken : List (ℕ × Message)
  pub broken : List (ℕ × Text)

abbrev pub remove_at {ℓ} : {A : Type ℓ} → ℕ → List A → List A
remove_at k [] = []
remove_at zero (x ∷ xs) = xs
remove_at (suc k) (x ∷ xs) = x ∷ remove_at k xs

-- A call of server i to `manager::send`, and one of a handler of server i to `manager::recv`.
unfoldable pub send_turn : ℕ → Message → Network → Option Network
unfolding send
send_turn i msg net = do
  n ← get_elem? net.servers i
  some (record net { servers = modify net.servers i (λ _. send n msg); sent = msg ∷ net.sent })

unfoldable pub take_turn : ℕ → Network → Option Network
unfolding recv
take_turn i net = do
  n ← get_elem? net.servers i
  (msg, n') ← recv n
  some (record net { servers = modify net.servers i (λ _. n'); taken = (i, msg) ∷ net.taken })

-- `write_message` of server i. `none`: it waits, throws, or follows a null pointer. A message without
-- a connection is dropped.
unfoldable pub write_on : Archive → Message → Connected → Network → Option Network
unfolding write_message
write_on a msg no_address net = none
write_on a msg refused net = some net
write_on a msg (accepted j) net = do
  bytes ← write_message a msg
  some (record net { connections = (j, bytes) ∷ net.connections })

unfoldable pub write_turn : Archive → (Text → ℕ → Connected) → ℕ → Network → Option Network
unfolding get_writable_msg write_on
write_turn a connect i net = do
  n ← get_elem? net.servers i
  (msg, n') ← get_writable_msg n
  write_on a msg (connect (header_of msg).to_ip (header_of msg).port)
      (record net { servers = modify net.servers i (λ _. n') })

-- A connection is read at its end, to which all its bytes have come. `none`: an exception, a write
-- behind the buffer, or a null pointer for the handlers.
unfoldable pub read_by : ℕ → Received → Network → Option Network
unfolding push_received
read_by j (pushed msg) net = do
  n ← get_elem? net.servers j
  some (record net { servers = modify net.servers j (λ _. push_received msg n) })
read_by j given_up net = some net
read_by j _ net = none

unfoldable pub read_turn : Archive → ℕ → Network → Option Network
unfolding read_message read_by
read_turn a k net = do
  (j, bytes) ← get_elem? net.connections k
  read_by j (read_message a bytes) (record net { connections = remove_at k net.connections })

-- A connection that fails before its bytes have come: nothing is read from it.
unfoldable pub break_turn : ℕ → Network → Option Network
break_turn k net = do
  c ← get_elem? net.connections k
  some (record net { connections = remove_at k net.connections; broken = c ∷ net.broken })

pub data Event : Type 0 where
  sends : ℕ → Message → Event
  takes writes reads breaks : ℕ → Event

unfoldable pub turn : Archive → (Text → ℕ → Connected) → Event → Network → Option Network
unfolding send_turn take_turn write_turn read_turn break_turn
turn a connect (sends i msg) net = send_turn i msg net
turn a connect (takes i) net = take_turn i net
turn a connect (writes i) net = write_turn a connect i net
turn a connect (reads k) net = read_turn a k net
turn a connect (breaks k) net = break_turn k net

unfoldable pub run : Archive → (Text → ℕ → Connected) → List Event → Network → Option Network
unfolding turn
run a connect [] net = some net
run a connect (e ∷ events) net = do net' ← turn a connect e net; run a connect events net'
