-- ===== src/Store.antt =====
-- src/data.cpp, what other threads call: each call becomes a request in the queue of the data
-- thread, and each answer of that thread a message. `op` says which request it is: 1 put, 2 get,
-- 3 read a range to move, 4 take moved entries in, 5 the range has arrived.
pub mod Moves
pub mod Digits
use thkvs.Base.{
  ℕ, List, [], Bool, true, false, Option, none, some, lookup, emplace, put_at, ltb, if◌then◌else◌,
  Text, codes, sub32,
}
use thkvs.Base.Int.{ℤ}
use thkvs.Queue.{push}
use thkvs.Send.{send_get_ret, send_put_ret, send_data_move, send_data_move_ret, send_move_ret}
use thkvs.State.{Node, KeyValue}

-- The three constructors of `KeyValue`.
abbrev pub new_request : ℕ → Text → ℕ → Text → Text → ℕ → KeyValue
new_request id ip port key value op = record {
  id = id;
  op = op;
  ip = ip;
  port = port;
  key = key;
  value = value;
  begin = 0;
  end = 0;
  remotesrcip = [];
  remotesrcport = 0;
  remotedestip = [];
  remotedestport = 0;
  key_vec = [];
  value_vec = [];
}

abbrev pub new_entries : ℕ → Text → ℕ → List Text → List Text → ℕ → KeyValue
new_entries id srcip srcport key_vec value_vec op =
    let r = new_request id srcip srcport [] [] op in
    record r { key_vec = key_vec; value_vec = value_vec }

abbrev pub new_range : ℕ → ℕ → ℕ → Text → ℕ → Text → ℕ → Text → ℕ → ℕ → KeyValue
new_range id begin end srcip srcport remotesrcip remotesrcport remotedestip remotedestport op =
    let r = new_request id srcip srcport [] [] op in
    record r {
      begin = begin;
      end = end;
      remotesrcip = remotesrcip;
      remotesrcport = remotesrcport;
      remotedestip = remotedestip;
      remotedestport = remotedestport;
    }

push_request : Node → KeyValue → Node
unfolding push
push_request n kv = record n { store = record (n.store) { que = push n.store.que kv } }

unfoldable pub put : Node → ℕ → Text → ℕ → Text → Text → Node
unfolding push_request
put n id ip port key value = push_request n (new_request id ip port key value 1)

unfoldable pub get : Node → ℕ → Text → ℕ → Text → Node
unfolding push_request
get n id ip port key = push_request n (new_request id ip port key (codes "haha") 2)

unfoldable pub get_move_data_true : Node → ℕ → ℕ → ℕ → Text → ℕ → Text → ℕ → Text → ℕ → Bool → Node
unfolding push_request put_at
get_move_data_true n id begin end srcip srcport remotesrcip remotesrcport remotedestip
      remotedestport remove =
    let s = n.store in
    push_request
      (record n {
        store = record s {
          mip = put_at id srcip s.mip;
          mpo = put_at id srcport s.mpo;
          mre = put_at id remove s.mre;
          mbe = put_at id begin s.mbe;
          men = put_at id end s.men;
        };
      })
      (new_range id begin end srcip srcport remotesrcip remotesrcport remotedestip remotedestport 3)

-- A range that passes the largest hash is cut there, and asked for in two requests.
unfoldable pub get_move_data : Node → ℕ → ℕ → ℕ → Text → ℕ → Text → ℕ → Text → ℕ → Bool → Node
unfolding get_move_data_true
get_move_data n id begin end srcip srcport remotesrcip remotesrcport remotedestip remotedestport
      remove =
    if ltb end begin
    then get_move_data_true
        (get_move_data_true n id begin 0xffff_ffff srcip srcport remotesrcip remotesrcport
          remotedestip remotedestport remove)
        id 0 (sub32 end 1) srcip srcport remotesrcip remotesrcport remotedestip remotedestport
        remove
    else get_move_data_true n id begin (sub32 end 1) srcip srcport remotesrcip remotesrcport
        remotedestip remotedestport remove

unfoldable pub get_move_data_return : Node → ℕ → Text → ℕ → Text → ℕ → List Text → List Text → Node
unfolding send_data_move
get_move_data_return n id remotesrcip remotesrcport remotedestip remotedestport key_vec value_vec =
    send_data_move n id remotesrcip remotesrcport remotedestip remotedestport key_vec value_vec

unfoldable pub recv_move_data : Node → ℕ → Text → ℕ → List Text → List Text → Node
unfolding push_request
recv_move_data n id srcip srcport key_vec value_vec =
    push_request n (new_entries id srcip srcport key_vec value_vec 4)

-- The status that is sent is 0, whatever is passed.
unfoldable pub recv_move_data_return : Node → ℕ → Text → ℕ → ℕ → Node
unfolding send_data_move_ret
recv_move_data_return n id srcip srcport status = send_data_move_ret n id srcip srcport 0

-- `m[id]`, and the map after it: a key that is missing is put there.
abbrev pub at : {V : Type 0} → V → ℕ → List (ℕ × V) → V
at default id m = elim (lookup id m) [ none ↦ default | some v ↦ v ]

unfoldable pub move_data_return : Node → ℕ → ℕ → Node
unfolding push_request emplace
move_data_return n id status =
    let s = n.store in
    push_request
      (record n { store = record s { mip = emplace id [] s.mip; mpo = emplace id 0 s.mpo } })
      (new_request id (at [] id s.mip) (at 0 id s.mpo) [] [] 5)

unfoldable pub move_data_return_return : Node → ℕ → Text → ℕ → ℕ → Node
unfolding send_move_ret
move_data_return_return n id ip port status = send_move_ret n id ip port status

unfoldable pub get_return : Node → ℕ → Text → ℕ → ℕ → Text → ℤ → Node
unfolding send_get_ret
get_return n id ip port status value time_stamp = send_get_ret n id ip port status value time_stamp

unfoldable pub put_return : Node → ℕ → Text → ℕ → ℕ → Node
unfolding send_put_ret
put_return n id ip port status = send_put_ret n id ip port status
