-- ===== src/Wait.antt =====
-- `wait` on a condition variable, in src/driver.cpp and main.cpp, as the thread that waits and those
-- that
-- notify it without the mutex: a notification is lost on a thread that has looked at the condition and
-- does not sleep yet.
use thkvs.Base.{
  ℕ, zero, suc, ◌<◌, ◌≤◌, ◌≡◌, refl, ap, ◌∙◌, inl, inr, List, [], ◌∷◌, Bool, true, false, length,
  ◌==◌, if◌then◌else◌, Bool-cases, sub32, arith,
}
use thkvs.State.{Node}

-- A thread in `wait`: it looks at the condition, has found it false, or sleeps.
pub data Waiter : Type 0 where
  looks falls_asleep sleeps : Waiter

-- What a notification does to it.
unfoldable pub notify_all : Waiter → Waiter
notify_all sleeps = looks
notify_all w = w

abbrev pub is_falling : Waiter → Bool
is_falling falls_asleep = true
is_falling _ = false

-- One step of a thread that waits at `p`: behind the wait it does `go`, and comes to the next one.
unfoldable pub wait {ℓ} :
    {P : Type ℓ} → P → (Node → Bool) → (Node → P × Node) → Waiter → Node → P × Waiter × Node
wait p due go looks n =
    let (p', n') = go n in if due n then (p', looks, n') else (p, falls_asleep, n)
wait p due go falls_asleep n = (p, sleeps, n)
wait p due go sleeps n = (p, sleeps, n)

-- Answers that change the state.
unfoldable pub answered {κ} : {X : Type κ} → (X → Node → Node) → List X → Node → Node
answered answer [] n = n
answered answer (x ∷ xs) n = answered answer xs (answer x n)

module _ {ℓ κ} {P : Type ℓ} {X : Type κ} (answer : X → Node → Node) where
  -- Answers, each of which changes the state and notifies.
  unfoldable pub notified : List X → P × Waiter × Node → P × Waiter × Node
  unfolding notify_all
  notified [] s = s
  notified (x ∷ xs) (p, w, n) = notified xs (p, notify_all w, answer x n)

  module _ (turn : P × Waiter × Node → P × Waiter × Node) where
    -- The thread looks, and falls asleep if it has to.
    unfoldable pub look : P × Waiter × Node → P × Waiter × Node
    look s = let s' = turn s in let s'' = turn s' in if is_falling s'.1 then s'' else s'

    -- Answers, after each of which the thread does so before the next one comes.
    unfoldable pub woken : List X → P × Waiter × Node → P × Waiter × Node
    unfolding look notify_all
    woken [] s = s
    woken (x ∷ xs) (p, w, n) = woken xs (look (p, notify_all w, answer x n))

    unfoldable pub turns : ℕ → P × Waiter × Node → P × Waiter × Node
    turns zero s = s
    turns (suc k) s = turns k (turn s)

    -- A thread that waits at `p` for a count to come to 0.
    module _ (p : P) (go : Node → P × Node) (count : Node → ℕ)
        (is_wait : (w : Waiter) (n : Node) → turn (p, w, n) ≡ wait p (λ m. count m == 0) go w n)
        (counts : (x : X) (n : Node) → count (answer x n) ≡ sub32 (count n) 1) where
      look_due :
          (n : Node) → (count n == 0) ≡ true → look (p, looks, n) ≡ ((go n).0, looks, (go n).1)
      unfolding look wait
      look_due n e = rw (is_wait looks n, look, wait, e) refl

      look_asleep : (n : Node) → (count n == 0) ≡ false → look (p, looks, n) ≡ (p, sleeps, n)
      unfolding look wait
      look_asleep n e = rw (is_wait looks n, look, wait, e) (is_wait falls_asleep n)

      -- The thread goes on at the last answer, and not before.
      pub woken_counts :
          (xs : List X) (n : Node) (c : ℕ)
          → count n ≡ c
          → 0 < c
          → c < 0x1_0000_0000
          → length xs ≤ c
          → woken xs (p, sleeps, n) ≡ (
              if length xs == c
              then ((go (answered answer xs n)).0, looks, (go (answered answer xs n)).1)
              else (p, sleeps, answered answer xs n))
      unfolding woken answered notify_all
      woken_counts [] n c e some_left small l =
          let more : (0 == c) ≡ false = ground arith in rw more refl
      woken_counts (x ∷ xs) n c e some_left small l =
          let n' = answer x n in
          let left : count n' ≡ sub32 c 1 = counts x n ∙ ap (λ k. sub32 k 1) e in
          elim (Bool-cases (c == 1)) [
            | inl one ↦
                let now : (count n' == 0) ≡ true = ap (λ k. k == 0) left ∙ ground arith in
                let done : (suc (length xs) == c) ≡ true = ground arith in
                let none_left : length xs ≤ 0 = ground arith in
                rw (look_due n' now, done) (no_more xs n' none_left)
            | inr more ↦
                let later : (count n' == 0) ≡ false = ap (λ k. k == 0) left ∙ ground arith in
                let same : (length xs == sub32 c 1) ≡ (suc (length xs) == c) = ground arith in
                rw (look_asleep n' later) (
                  woken_counts xs n' (sub32 c 1) left (ground arith) (omega arith) (ground arith)
                  ∙ ap
                      (λ b.
                        if b
                        then ((go (answered answer xs n')).0, looks, (go (answered answer xs n')).1)
                        else (p, sleeps, answered answer xs n'))
                      same)
          ]
        where
          no_more :
              (ys : List X) (m : Node)
              → length ys ≤ 0
              → woken ys ((go m).0, looks, (go m).1)
                ≡ ((go (answered answer ys m)).0, looks, (go (answered answer ys m)).1)
          no_more [] m z = refl
          no_more (y ∷ ys) m z = absurd (omega arith)

      -- A thread that falls asleep while the answers come sleeps behind them, whatever their number.
      pub notified_missed :
          (xs : List X) (n : Node) (k : ℕ)
          → turns (suc k) (notified xs (p, falls_asleep, n)) ≡ (p, sleeps, answered answer xs n)
      unfolding notified notify_all turns answered wait
      notified_missed [] n k = ap (turns k) (is_wait falls_asleep n) ∙ still k n
        where
          still : (k : ℕ) (m : Node) → turns k (p, sleeps, m) ≡ (p, sleeps, m)
          still zero m = refl
          still (suc k) m = ap (turns k) (is_wait sleeps m) ∙ still k m
      notified_missed (x ∷ xs) n k = notified_missed xs (answer x n) k
