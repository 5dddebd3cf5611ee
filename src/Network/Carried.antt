-- ===== src/Network/Carried.antt =====
-- src/network: what the connections carry, whatever the order in which the threads of the servers send,
-- write, read and take.
use thkvs.Base.{ℕ, ◌+◌, ◌≡◌, refl, List, [], ◌∷◌, Option, none, some, Text, All, bind_cases, arith}
use mathlib.Core.Path.{subst}
use thkvs.Message.{Message}
use thkvs.Network.{Network, Connected, Event, turn, run}
use thkvs.Network.Sums.{total}
use thkvs.Wire.{Archive}
use thkvs.Network.Messages.{CanSend, AllCanSend, SendsCarried, turn-AllCanSend}
use thkvs.Network.Balance.{weight, held, Balanced, Balances, turn-Balances}

module _ (a : Archive) (connect : Text → ℕ → Connected) (w : ℕ → Message → ℕ) where
  onward :
      (net net' : Network) (o : Option Network)
      → Balanced a connect w net net'
      → Balances a connect w net' o
      → Balances a connect w net o
  onward net net' none b c = tt
  onward net net' (some last) b c = omega (arith, b, c)

  run-Balances :
      (events : List Event) (net : Network)
      → All (SendsCarried a) events
      → All (CanSend a) net.servers
      → Balances a connect w net (run a connect events net)
  unfolding run
  run-Balances [] net ok can = refl
  run-Balances (e ∷ events) net ok can =
      bind_cases (λ o. Balances a connect w net o × AllCanSend a o) (Balances a connect w net)
        (turn a connect e net) _
        (turn-Balances a connect w e net can, turn-AllCanSend a connect e net ok.0 can) tt
        (λ net' (balanced, can').
          onward net net' (run a connect events net') balanced (run-Balances events net' ok.1 can'))

  -- Whatever the order of the turns in which threads send, write, read and take, and connections
  -- break, no message is lost but on a connection that broke or at an address that refused one, and
  -- none is made up, doubled or read by another server than the one that accepts at its address:
  -- weighed by the server and the message in any way, what is queued, on the connections, taken
  -- and broken grows by what is sent. The messages that wait at the beginning and those that are
  -- sent have the type
  -- of their class and an archive below 20480 bytes without a zero, which gives back their members.
  pub messages_carried :
      (events : List Event) (net net' : Network)
      → All (SendsCarried a) events
      → All (CanSend a) net.servers
      → run a connect events net ≡ some net'
      → held a connect w net' + total (weight a connect w) net.sent
        ≡ held a connect w net + total (weight a connect w) net'.sent
  messages_carried events net net' ok can e =
      subst (Balances a connect w net) e (run-Balances events net ok can)
