-- ===== src/Tests/Parts.antt =====
-- The hash, the queue, the messages and the ranges to move: the theorems at one input each.
use thkvs.Base.{
  Text, ℕ, ◌<◌, ◌≡◌, refl, List, [], ◌∷◌, ◌++◌, true, Option, none, some, codes, get_elem?, map,
  All, ◌+◌, ◌==◌, if◌then◌else◌, arith,
}
use thkvs.Crc.{get_crc}
use thkvs.Crc.Reference.{reference_crc, get_crc-reference}
use thkvs.Handler.{done, waits}
use thkvs.Handler.Routes.{Routes, requests_routed}
use thkvs.Membership.{act_add_server, act_remove_server}
use thkvs.Pause.{act_set_enable_flag}
use thkvs.Queue.{MsgQueue, Run, push, pop, Run-fifo}
use thkvs.Send.{
  send_put, send_get, send_set_enable_flag, send_set_enable_flag_ret, send_add_server,
  send_add_server_ret, send_remove_server, send_remove_server_ret,
}
use thkvs.State.{Node, KeyValue}
use thkvs.Message.{Message, new_op, m_op, m_get}
use thkvs.Message.Saved.{Field, type_of, save_fields, load_fields, load_fields-save_fields}
use thkvs.Wire.{Archive, write_message, read_message, pushed}
use thkvs.Wire.Fate.{message_fate}
use thkvs.Network.{Network, Connected, accepted, Event, sends, writes, reads, takes, run}
use thkvs.Network.Balance.{held, weight}
use thkvs.Network.Carried.{messages_carried}
use thkvs.Network.Messages.{IsCarried}
use thkvs.Network.Sums.{total}
use thkvs.Store
use thkvs.Store.{get_move_data}
use thkvs.Store.Moves.{times_read, get_move_data_reads}
use thkvs.Tests.{server}

bytes : All (λ (b : ℕ). b < 256) (codes "a#1")
bytes = (omega arith, (omega arith, (omega arith, tt)))

get_crc-reference_example : get_crc (codes "a#1") ≡ reference_crc (codes "a#1")
get_crc-reference_example = get_crc-reference (codes "a#1") bytes

abbrev before : MsgQueue ℕ
before = 1 ∷ []

abbrev given : List ℕ
given = 2 ∷ 3 ∷ []

abbrev taken : List ℕ
taken = 1 ∷ 2 ∷ []

abbrev left : MsgQueue ℕ
left = 3 ∷ []

a-Run : Run before given taken left
unfolding push pop
a-Run = Run.pushes 2 (Run.pops 1 refl (Run.pushes 3 (Run.pops 2 refl Run.done)))

Run-fifo_example : taken ++ left ≡ before ++ given
Run-fifo_example = Run-fifo a-Run

abbrev after_move : Node
after_move = get_move_data server 9 50 20 (codes "m") 1 (codes "s") 2 (codes "d") 3 true

get_move_data_reads_example :
    (kvs : List KeyValue) × (after_move.store.que ≡ [] ++ kvs) × (times_read 60 kvs ≡ 1)
get_move_data_reads_example =
    get_move_data_reads server 9 50 20 (codes "m") 1 (codes "s") 2 (codes "d") 3 true 60
      (λ e. ground arith) (omega arith) (omega arith) (omega arith)

requests_routed_example :
    Routes
      (λ v. v)
      (λ s. send_put s 5 (codes "l") 1 (codes "i") 2 (codes "k") (codes "v"))
      (codes "i")
      2
      (λ n. done (Store.put n 5 (codes "l") 1 (codes "k") (codes "v")))
    × Routes
        (λ v. v)
        (λ s. send_get s 5 (codes "l") 1 (codes "i") 2 (codes "k"))
        (codes "i")
        2
        (λ n. done (Store.get n 5 (codes "l") 1 (codes "k")))
    × Routes
        (λ v. v)
        (λ s. send_set_enable_flag s 5 (codes "l") 1 (codes "i") 2 true)
        (codes "i")
        2
        (λ n. elim (act_set_enable_flag n true) [
          | none ↦ waits
          | some n' ↦ done (send_set_enable_flag_ret n' 5 (codes "l") 1 0)
        ])
    × Routes
        (λ v. v)
        (λ s. send_add_server s 5 (codes "l") 1 (codes "i") 2 (codes "e") (codes "h") 3)
        (codes "i")
        2
        (λ n.
          done (send_add_server_ret (act_add_server n (codes "e") (codes "h") 3) 5 (codes "l") 1 0))
    × Routes
        (λ v. v)
        (λ s. send_remove_server s 5 (codes "l") 1 (codes "i") 2 (codes "e"))
        (codes "i")
        2
        (λ n. done (send_remove_server_ret (act_remove_server n (codes "e")) 5 (codes "l") 1 0))
requests_routed_example =
    requests_routed (λ v. v) 5 (codes "l") 1 (codes "i") 2 (codes "k") (codes "v") true (codes "e")
      (codes "h") 3

-- An archive that keeps only the key of an operation.
abbrev get_of : Text → Message
get_of key = Message.operation (new_op m_op (codes "::1") 8001 (codes "::1") 8002 m_get 7 key [])

abbrev text_in : Option Field → Text
text_in (some (Field.string x)) = x
text_in _ = []

abbrev key_archive : Archive
unfolding save_fields
key_archive = record {
  start = [];
  write = λ fields. text_in (get_elem? fields 5);
  read = λ types key. some (save_fields (get_of key));
}

message_fate_example :
    (bytes : Text) × (write_message key_archive (get_of (codes "k")) ≡ some bytes)
    × (read_message key_archive bytes ≡ pushed (get_of (codes "k")))
unfolding save_fields
message_fate_example =
    message_fate key_archive (get_of (codes "k")) refl (omega arith) (omega arith, tt) refl

load_fields-save_fields_example :
    (map type_of (save_fields (get_of (codes "k")))
      ≡ map type_of (save_fields (get_of (codes "j"))))
    × (load_fields (get_of (codes "j")) (save_fields (get_of (codes "k")))
        ≡ some (get_of (codes "k")))
load_fields-save_fields_example =
    load_fields-save_fields (get_of (codes "k")) (get_of (codes "j")) refl

-- Two servers; a message of the first to the second is sent, written, read and taken.
abbrev two_servers : Network
two_servers = record {
  servers = server ∷ server ∷ [];
  connections = [];
  sent = [];
  taken = [];
  broken = [];
}

abbrev to_second : Text → ℕ → Connected
to_second ip port = accepted 1

abbrev one_sent : List Event
one_sent = sends 0 (get_of (codes "k")) ∷ writes 0 ∷ reads 0 ∷ takes 1 ∷ []

abbrev one_taken : Network
one_taken = record two_servers {
  sent = get_of (codes "k") ∷ [];
  taken = (1, get_of (codes "k")) ∷ [];
}

one_run : run key_archive to_second one_sent two_servers ≡ some one_taken
unfolding run save_fields
one_run = refl

get_of-IsCarried : IsCarried key_archive (get_of (codes "k"))
unfolding save_fields
get_of-IsCarried = record {
  typed = refl;
  short = omega arith;
  plain = (omega arith, tt);
  readable = refl;
}

abbrev second_only : ℕ → Message → ℕ
second_only j m = if j == 1 then 1 else 0

messages_carried_example :
    held key_archive to_second second_only one_taken
      + total (weight key_archive to_second second_only) two_servers.sent
    ≡ held key_archive to_second second_only two_servers
      + total (weight key_archive to_second second_only) one_taken.sent
messages_carried_example =
    messages_carried key_archive to_second second_only one_sent two_servers one_taken
      (get_of-IsCarried, (tt, (tt, (tt, tt)))) (tt, (tt, tt)) one_run

second_has_it :
    (held key_archive to_second second_only one_taken ≡ 1)
    × (weight key_archive to_second second_only (get_of (codes "k")) ≡ 1)
unfolding held weight
second_has_it = (refl, refl)
