-- ===== src/Network/Balance.antt =====
-- src/network: what each turn does to the messages of a network, weighed by their servers.
use thkvs.Base.{
  ℕ, ◌+◌, ◌≡◌, refl, ap, [], ◌∷◌, Option, none, some, Text, get_elem?, modify, length, ltb, true,
  All, bind_cases, arith,
}
use thkvs.Message.{Message, header_of}
use thkvs.Network.{
  Network, Connected, no_address, refused, accepted, Event, sends, takes, writes, reads, breaks,
  recv, get_writable_msg, push_received, remove_at, send_turn, take_turn, write_on, write_turn,
  read_by, read_turn, break_turn, turn,
}
use thkvs.Network.Sums.{
  total, total_placed, total-append, total-remove_at, total_placed-modify, All-get_elem?,
}
use thkvs.Queue.{push, pop, pop-eq-some}
use thkvs.Send.{send}
use thkvs.State.{Node}
use thkvs.Wire.{
  Archive, Received, pushed, pushed_null, given_up, out_of_bounds, archive_error, write_message,
  read_message, max_body_size,
}
use thkvs.Wire.Fate.{body, message_fate}
use thkvs.Network.Messages.{IsCarried, CanSend, WritesCarried, get_writable_msg-WritesCarried}

module _ (a : Archive) (connect : Text → ℕ → Connected) where
  module _ (w : ℕ → Message → ℕ) where
    -- A message is weighed by its server: the one that its address leads to, that reads its connection
    -- or that has received it.
    unfoldable pub weight_at : Message → Connected → ℕ
    weight_at m (accepted j) = w j m
    weight_at m _ = 0

    unfoldable pub weight_read : ℕ → Received → ℕ
    weight_read j (pushed m) = w j m
    weight_read j _ = 0

    unfoldable pub weight : Message → ℕ
    unfolding weight_at
    weight m = weight_at m (connect (header_of m).to_ip (header_of m).port)

    unfoldable pub weight_written : ℕ × Text → ℕ
    unfolding weight_read
    weight_written (j, bytes) = weight_read j (read_message a bytes)

    unfoldable pub weight_queues : ℕ → Node → ℕ
    unfolding weight
    weight_queues i n = total weight n.send_que + total (w i) n.recv_que

    -- All that is in the queues and on the connections, has been taken or was on a connection that
    -- broke.
    unfoldable pub held : Network → ℕ
    unfolding weight_queues weight_written
    held net =
        total_placed weight_queues net.servers
        + total weight_written net.connections
        + total (λ p. w p.0 p.1) net.taken
        + total weight_written net.broken

    abbrev pub Balanced : Network → Network → Type 0
    Balanced net net' = held net' + total weight net.sent ≡ held net + total weight net'.sent

    -- A turn that is taken keeps the balance.
    abbrev pub Balances : Network → Option Network → Type 0
    Balances net none = Unit
    Balances net (some net') = Balanced net net'

    abbrev Takes : (Message → ℕ) → ℕ → Node → Option (Message × Node) → Type 0
    Takes f i n none = Unit
    Takes f i n (some (m, n')) = weight_queues i n ≡ f m + weight_queues i n'

    recv-Takes : (i : ℕ) (n : Node) → Takes (w i) i n (recv n)
    unfolding recv weight_queues
    recv-Takes i n =
        bind_cases (λ o. pop n.recv_que ≡ o) (Takes (w i) i n) (pop n.recv_que) _ refl tt
          (λ (m, rest) e.
            let front = ap (total (w i)) (pop-eq-some n.recv_que m rest e) in omega (arith, front))

    get_writable_msg-Takes : (i : ℕ) (n : Node) → Takes weight i n (get_writable_msg n)
    unfolding get_writable_msg weight_queues
    get_writable_msg-Takes i n =
        bind_cases (λ o. pop n.send_que ≡ o) (Takes weight i n) (pop n.send_que) _ refl tt
          (λ (m, rest) e.
            let front = ap (total weight) (pop-eq-some n.send_que m rest e) in omega (arith, front))

    send-weight :
        (i : ℕ) (n : Node) (m : Message) → weight_queues i (send n m) ≡ weight_queues i n + weight m
    unfolding send push weight_queues
    send-weight i n m = omega (arith, total-append weight n.send_que (m ∷ []))

    push_received-weight :
        (i : ℕ) (n : Node) (m : Message)
        → weight_queues i (push_received m n) ≡ weight_queues i n + w i m
    unfolding push_received push weight_queues
    push_received-weight i n m = omega (arith, total-append (w i) n.recv_que (m ∷ []))

    send_turn-Balances : (i : ℕ) (m : Message) (net : Network) → Balances net (send_turn i m net)
    unfolding held send_turn
    send_turn-Balances i m net =
        bind_cases (λ o. get_elem? net.servers i ≡ o) (Balances net) (get_elem? net.servers i) _
          refl tt
          (λ n e.
            let changed = total_placed-modify weight_queues net.servers i n (send n m) e in
            let more = send-weight i n m in omega (arith, changed, more))

    take_turn-Balances : (i : ℕ) (net : Network) → Balances net (take_turn i net)
    unfolding held take_turn
    take_turn-Balances i net =
        bind_cases (λ o. get_elem? net.servers i ≡ o) (Balances net) (get_elem? net.servers i) _
          refl tt
          (λ n e.
            bind_cases (Takes (w i) i n) (Balances net) (recv n) _ (recv-Takes i n) tt
              (λ (m, n') less.
                let changed = total_placed-modify weight_queues net.servers i n n' e in
                omega (arith, changed, less)))

    read_by-Balances :
        (j : ℕ) (r : Received) (net : Network) (old : Network)
        → total weight net.sent ≡ total weight old.sent
        → held net + weight_read j r ≡ held old
        → Balances old (read_by j r net)
    unfolding held read_by weight_read
    read_by-Balances j (pushed m) net old same less =
        bind_cases (λ o. get_elem? net.servers j ≡ o) (Balances old) (get_elem? net.servers j) _
          refl tt
          (λ n e.
            let changed = total_placed-modify weight_queues net.servers j n (push_received m n) e in
            let more = push_received-weight j n m in omega (arith, changed, more, less, same))
    read_by-Balances j given_up net old same less = omega (arith, less, same)
    read_by-Balances j pushed_null net old same less = tt
    read_by-Balances j out_of_bounds net old same less = tt
    read_by-Balances j archive_error net old same less = tt

    read_turn-Balances : (k : ℕ) (net : Network) → Balances net (read_turn a k net)
    unfolding held read_turn weight_written
    read_turn-Balances k net =
        bind_cases (λ o. get_elem? net.connections k ≡ o) (Balances net)
          (get_elem? net.connections k) _ refl tt
          (λ (j, bytes) e.
            let less = total-remove_at weight_written net.connections k (j, bytes) e in
            read_by-Balances j (read_message a bytes)
              (record net { connections = remove_at k net.connections }) net refl
              (omega (arith, less)))

    break_turn-Balances : (k : ℕ) (net : Network) → Balances net (break_turn k net)
    unfolding held break_turn
    break_turn-Balances k net =
        bind_cases (λ o. get_elem? net.connections k ≡ o) (Balances net)
          (get_elem? net.connections k) _ refl tt
          (λ c e.
            let less = total-remove_at weight_written net.connections k c e in omega (arith, less))

    write_message-weight :
        (m : Message) (j : ℕ) (bytes : Text)
        → IsCarried a m
        → write_message a m ≡ some bytes
        → weight_written (j, bytes) ≡ w j m
    unfolding weight_written weight_read
    write_message-weight m j bytes c e =
        let (bytes', e', fate) =
          message_fate a m c.typed (omega (arith, c.short)) c.plain c.readable in
        let same : bytes ≡ bytes' = cc in
        let fits : ltb (length (body a m c.typed)) max_body_size ≡ true = ground (arith, c.short) in
        rw (same, fate, fits) refl

    write_on-Balances :
        (m : Message) (c : Connected) (net old : Network)
        → IsCarried a m
        → total weight net.sent ≡ total weight old.sent
        → held net + weight_at m c ≡ held old
        → Balances old (write_on a m c net)
    unfolding held write_on weight_at
    write_on-Balances m no_address net old carried same less = tt
    write_on-Balances m refused net old carried same less = omega (arith, less, same)
    write_on-Balances m (accepted j) net old carried same less =
        bind_cases (λ o. write_message a m ≡ o) (Balances old) (write_message a m) _ refl tt
          (λ bytes e.
            let as_written = write_message-weight m j bytes carried e in
            omega (arith, as_written, less, same))

    write_turn-Balances :
        (i : ℕ) (net : Network)
        → All (CanSend a) net.servers
        → Balances net (write_turn a connect i net)
    unfolding held write_turn weight
    write_turn-Balances i net can =
        bind_cases (λ o. get_elem? net.servers i ≡ o) (Balances net) (get_elem? net.servers i) _
          refl tt
          (λ n e.
            bind_cases (λ o. Takes weight i n o × WritesCarried a o) (Balances net)
              (get_writable_msg n) _
              (
                get_writable_msg-Takes i n,
                get_writable_msg-WritesCarried a n
                    (All-get_elem? (CanSend a) net.servers i n can e),
              )
              tt
              (λ (m, n') (less, front).
                let changed = total_placed-modify weight_queues net.servers i n n' e in
                write_on-Balances m (connect (header_of m).to_ip (header_of m).port)
                  (record net { servers = modify net.servers i (λ _. n') }) net front.0 refl
                  (omega (arith, changed, less))))

    pub turn-Balances :
        (e : Event) (net : Network)
        → All (CanSend a) net.servers
        → Balances net (turn a connect e net)
    unfolding turn
    turn-Balances (sends i m) net can = send_turn-Balances i m net
    turn-Balances (takes i) net can = take_turn-Balances i net
    turn-Balances (writes i) net can = write_turn-Balances i net can
    turn-Balances (reads k) net can = read_turn-Balances k net
    turn-Balances (breaks k) net can = break_turn-Balances k net
