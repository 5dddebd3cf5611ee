-- ===== src/Network/Messages.antt =====
-- src/network: the messages that a connection can carry, and that no others come into the send queues.
use thkvs.Base.{
  ℕ, ◌<◌, ◌≡◌, refl, [], ◌∷◌, Option, none, some, Text, get_elem?, modify, length, All, All-append,
  ◌>>=◌, bind_cases, bind_holds,
}
use mathlib.Core.Path.{subst}
use thkvs.Message.{Message, header_of}
use thkvs.Message.Saved.{type_of_class}
use thkvs.Network.{
  Network, Connected, no_address, refused, accepted, Event, sends, takes, writes, reads, breaks,
  recv, get_writable_msg, push_received, remove_at, send_turn, take_turn, write_on, write_turn,
  read_by, read_turn, break_turn, turn,
}
use thkvs.Network.Sums.{All-get_elem?, All-modify}
use thkvs.Queue.{push, pop, pop-eq-some}
use thkvs.Send.{send}
use thkvs.State.{Node}
use thkvs.Wire.{
  Archive, Received, pushed, pushed_null, given_up, out_of_bounds, archive_error, write_message,
  read_message, max_body_size,
}
use thkvs.Wire.Fate.{IsReadable, body}

module _ (a : Archive) where
  -- Messages that the connections can carry.
  pub record IsCarried (m : Message) : Type 0 where
    pub typed : (header_of m).kind ≡ type_of_class m
    pub short : length (body a m typed) < max_body_size
    pub plain : All (λ b. 0 < b) (body a m typed)
    pub readable : IsReadable a m typed

  abbrev pub CanSend : Node → Type 0
  CanSend n = All IsCarried n.send_que

  abbrev pub WritesCarried : Option (Message × Node) → Type 0
  WritesCarried none = Unit
  WritesCarried (some (m, n')) = IsCarried m × CanSend n'

  pub get_writable_msg-WritesCarried : (n : Node) → CanSend n → WritesCarried (get_writable_msg n)
  unfolding get_writable_msg
  get_writable_msg-WritesCarried n can =
      bind_cases (λ o. pop n.send_que ≡ o) WritesCarried (pop n.send_que) _ refl tt
        (λ (m, rest) e.
          let front : All IsCarried (m ∷ rest) =
            subst (All IsCarried) (pop-eq-some n.send_que m rest e) can in
          (front.0, front.1))

  abbrev TakesOnly : Option (Message × Node) → Type 0
  TakesOnly none = Unit
  TakesOnly (some (m, n')) = CanSend n'

  recv-TakesOnly : (n : Node) → CanSend n → TakesOnly (recv n)
  unfolding recv
  recv-TakesOnly n can = bind_holds TakesOnly (pop n.recv_que) _ tt (λ (m, rest). can)

  abbrev pub AllCanSend : Option Network → Type 0
  AllCanSend none = Unit
  AllCanSend (some net) = All CanSend net.servers

  -- What a turn may send.
  abbrev pub SendsCarried : Event → Type 0
  SendsCarried (sends i m) = IsCarried m
  SendsCarried _ = Unit

  module _ (net : Network) (can : All CanSend net.servers) where
    changed-AllCanSend :
        (i : ℕ) (f : Node → Option Network)
        → ((n : Node) → CanSend n → AllCanSend (f n))
        → AllCanSend (get_elem? net.servers i >>= f)
    changed-AllCanSend i f keeps =
        bind_cases (λ o. get_elem? net.servers i ≡ o) AllCanSend (get_elem? net.servers i) f refl tt
          (λ n e. keeps n (All-get_elem? CanSend net.servers i n can e))

    send_turn-AllCanSend : (i : ℕ) (m : Message) → IsCarried m → AllCanSend (send_turn i m net)
    unfolding send_turn send push
    send_turn-AllCanSend i m carried = changed-AllCanSend i _ (λ n c.
        All-modify CanSend net.servers i (send n m) can
          (All-append IsCarried n.send_que (m ∷ []) c (carried, tt)))

    take_turn-AllCanSend : (i : ℕ) → AllCanSend (take_turn i net)
    unfolding take_turn
    take_turn-AllCanSend i = changed-AllCanSend i _ (λ n c.
        bind_cases TakesOnly AllCanSend (recv n) _ (recv-TakesOnly n c) tt
          (λ (m, n') c'. All-modify CanSend net.servers i n' can c'))

    read_by-AllCanSend : (j : ℕ) (r : Received) → AllCanSend (read_by j r net)
    unfolding read_by push_received
    read_by-AllCanSend j (pushed m) =
        changed-AllCanSend j _ (λ n c. All-modify CanSend net.servers j (push_received m n) can c)
    read_by-AllCanSend j given_up = can
    read_by-AllCanSend j pushed_null = tt
    read_by-AllCanSend j out_of_bounds = tt
    read_by-AllCanSend j archive_error = tt

    write_on-AllCanSend : (m : Message) (c : Connected) → AllCanSend (write_on a m c net)
    unfolding write_on
    write_on-AllCanSend m no_address = tt
    write_on-AllCanSend m refused = can
    write_on-AllCanSend m (accepted j) =
        bind_holds AllCanSend (write_message a m) _ tt (λ bytes. can)

  module _ (connect : Text → ℕ → Connected) where
    write_turn-AllCanSend :
        (i : ℕ) (net : Network) → All CanSend net.servers → AllCanSend (write_turn a connect i net)
    unfolding write_turn
    write_turn-AllCanSend i net can = changed-AllCanSend net can i _ (λ n c.
        bind_cases WritesCarried AllCanSend (get_writable_msg n) _
          (get_writable_msg-WritesCarried n c) tt
          (λ (m, n') front.
            write_on-AllCanSend (record net { servers = modify net.servers i (λ _. n') })
              (All-modify CanSend net.servers i n' can front.1) m
              (connect (header_of m).to_ip (header_of m).port)))

    -- No turn puts a message into a send queue that cannot be carried, unless one is sent.
    pub turn-AllCanSend :
        (e : Event) (net : Network)
        → SendsCarried e
        → All CanSend net.servers
        → AllCanSend (turn a connect e net)
    unfolding turn read_turn break_turn
    turn-AllCanSend (sends i m) net carried can = send_turn-AllCanSend net can i m carried
    turn-AllCanSend (takes i) net carried can = take_turn-AllCanSend net can i
    turn-AllCanSend (writes i) net carried can = write_turn-AllCanSend i net can
    turn-AllCanSend (reads k) net carried can =
        bind_holds AllCanSend (get_elem? net.connections k) _ tt (λ (j, bytes).
          read_by-AllCanSend (record net { connections = remove_at k net.connections }) can j
            (read_message a bytes))
    turn-AllCanSend (breaks k) net carried can =
        bind_holds AllCanSend (get_elem? net.connections k) _ tt (λ c. can)
