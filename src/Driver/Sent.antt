-- ===== src/Driver/Sent.antt =====
-- src/driver.cpp, the loops of `put` and `get` over the chosen hosts, and the messages they send.
use mathlib.Core.List.{append_assoc, append-nil}
use thkvs.Base.{
  ℕ, zero, suc, ◌<◌, ◌≡◌, refl, ◌∙◌, List, [], ◌∷◌, ◌++◌, none, some, All, length, get_elem?, Text,
  arith,
}
use thkvs.Driver.{put_to, get_to}
use thkvs.Driver.Hosts.{address, addresses}
use thkvs.Message.{Message, operation, new_op, m_op, m_put, m_get}
use thkvs.Send.{send_put, send_get}
use thkvs.State.{Node, Host}

-- One message for each of the hosts, in their order.
abbrev pub to_each : (Text × Text × ℕ → Message) → List (Text × Text × ℕ) → List ℕ → List Message
to_each message servers [] = []
to_each message servers (i ∷ hosts) = elim (get_elem? servers i) [
  | none ↦ to_each message servers hosts
  | some a ↦ message a ∷ to_each message servers hosts
]

abbrev pub put_message : Host → ℕ → Text → Text → Text × Text × ℕ → Message
put_message local id key value (hostname, ip, port) =
    operation (new_op m_op ip port local.ip local.port m_put id key value)

abbrev pub get_message : Host → ℕ → Text → Text × Text × ℕ → Message
get_message local id key (hostname, ip, port) =
    operation (new_op m_op ip port local.ip local.port m_get id key [])

get_elem?-address :
    (hosts : List Host) (i : ℕ)
    → i < length hosts
    → (h : Host) × (get_elem? hosts i ≡ some h) × (get_elem? (addresses hosts) i ≡ some (address h))
get_elem?-address [] i l = absurd (omega arith)
get_elem?-address (h ∷ hosts) zero l = (h, refl, refl)
get_elem?-address (h ∷ hosts) (suc i) l = get_elem?-address hosts i (omega arith)

to_each_found :
    (message : Text × Text × ℕ → Message) (servers : List (Text × Text × ℕ)) (i : ℕ)
    (hosts : List ℕ) (a : Text × Text × ℕ)
    → get_elem? servers i ≡ some a
    → to_each message servers (i ∷ hosts) ≡ message a ∷ to_each message servers hosts
to_each_found message servers i hosts a e = rw (e, to_each)

module _ (id : ℕ) (key value : Text) where
  pub put_to-to_each :
      (hosts : List ℕ) (n : Node)
      → All (λ i. i < length n.driver.host_list) hosts
      → put_to n id key value hosts
        ≡ some (record n {
          send_que =
              n.send_que
              ++ to_each
                  (put_message n.driver.localhost id key value)
                  (addresses n.driver.host_list)
                  hosts;
        })
  unfolding put_to
  put_to-to_each [] n a = rw append-nil
  put_to-to_each (i ∷ hosts) n a =
      let (h, e, e') = get_elem?-address n.driver.host_list i a.0 in
      let l = n.driver.localhost in
      let here =
        to_each_found (put_message l id key value) (addresses n.driver.host_list) i hosts
          (address h) e' in
      rw (e, put_to, here)
        (put_to-to_each hosts (send_put n id l.ip l.port h.ip h.port key value) a.1
          ∙ rw append_assoc)

  pub get_to-to_each :
      (hosts : List ℕ) (n : Node)
      → All (λ i. i < length n.driver.host_list) hosts
      → get_to n id key hosts
        ≡ some (record n {
          send_que =
              n.send_que
              ++ to_each
                  (get_message n.driver.localhost id key)
                  (addresses n.driver.host_list)
                  hosts;
        })
  unfolding get_to
  get_to-to_each [] n a = rw append-nil
  get_to-to_each (i ∷ hosts) n a =
      let (h, e, e') = get_elem?-address n.driver.host_list i a.0 in
      let l = n.driver.localhost in
      let here =
        to_each_found (get_message l id key) (addresses n.driver.host_list) i hosts (address h)
          e' in
      rw (e, get_to, here)
        (get_to-to_each hosts (send_get n id l.ip l.port h.ip h.port key) a.1 ∙ rw append_assoc)
