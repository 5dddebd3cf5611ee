-- ===== src/Queue.antt =====
-- src/network/msg_queue.hpp: the blocking queue between the threads. The mutex makes each call one
-- step; `pop` on an empty queue waits, which is `none` here.
use thkvs.Base.{◌≡◌, refl, List, [], ◌∷◌, ◌++◌, Bool, true, false, Option, none, some, arith}
use mathlib.Core.List.{append_assoc, append-nil}

-- The front of the queue is the head of the list.
abbrev pub MsgQueue {ℓ} : Type ℓ → Type ℓ
MsgQueue T = List T

module _ {ℓ} {T : Type ℓ} where
  unfoldable pub push : MsgQueue T → T → MsgQueue T
  push q elem = q ++ elem ∷ []

  unfoldable pub pop : MsgQueue T → Option (T × MsgQueue T)
  pop [] = none
  pop (front ∷ rest) = some (front, rest)

  unfoldable pub is_empty : MsgQueue T → Bool
  is_empty [] = true
  is_empty (front ∷ rest) = false

  -- A run of calls; `taken` holds what the finished pops returned, oldest first.
  pub data Run : MsgQueue T → List T → List T → MsgQueue T → Type ℓ where
    done : {q : MsgQueue T} → Run q [] [] q
    pushes :
        {q r : MsgQueue T} {given taken : List T} (elem : T)
        → Run (push q elem) given taken r
        → Run q (elem ∷ given) taken r
    pops :
        {q q' r : MsgQueue T} {given taken : List T} (elem : T)
        → pop q ≡ some (elem, q')
        → Run q' given taken r
        → Run q given (elem ∷ taken) r

  pub pop-eq-some :
      (q : MsgQueue T) (elem : T) (rest : MsgQueue T) → pop q ≡ some (elem, rest) → q ≡ elem ∷ rest
  unfolding pop
  pop-eq-some [] elem rest h = ground arith
  pop-eq-some (x ∷ q) elem rest h = ground arith

  -- Over any interleaving of pushes and pops nothing is lost, made up or reordered: what was
  -- taken, followed by what is left, is what was there, followed by what was pushed, in order.
  pub Run-fifo :
      {q r : MsgQueue T} {given taken : List T} → Run q given taken r → taken ++ r ≡ q ++ given
  Run-fifo {q} done = rw append-nil
  Run-fifo {q} (pushes {given = given} elem run) =
      rw (Run-fifo run) (unfold push in append_assoc q (elem ∷ []) given)
  Run-fifo {q} (pops elem e run) = rw (pop-eq-some q elem _ e, Run-fifo run)

  -- A pop waits exactly while the queue is empty.
  pub pop-is_empty : (q : MsgQueue T) → is_empty q ≡ true → pop q ≡ none
  unfolding pop is_empty
  pop-is_empty [] h = refl
  pop-is_empty (x ∷ q) h = ground arith
