-- ===== src/Main/Failed.antt =====
-- main.cpp, what is left of `display` when a number could not be read.
use thkvs.Base.{
  ℕ, zero, suc, ◌≡◌, refl, ap, ◌∙◌, [], ◌∷◌, ◌++◌, true, false, some, Text, codes, ◌==◌, ◌||◌,
  ◌>>=◌, arith,
}
use thkvs.Base.Int.{ℤ, pos}
use thkvs.Disk.{Stream, open_in, skip_space, is_space, is_digit, read_string, read_int}
use thkvs.Disk.Signed.{IsWord}
use thkvs.Main.{
  add, unknown, read_operands, read_command, int_bits, reads, run_command, display_step,
  display_steps,
}
use thkvs.Main.Script.{read_word, read_command-word}
use thkvs.Main.Queued.{with_input, later}
use thkvs.State.{Node}

abbrev pub failed_at : Text → Stream
failed_at rest = record { rest = rest; failed = true }

-- On a stream that has failed the loop reads no command any more.
read_command-failed_at :
    (unset : ℤ) (rest : Text) → read_command unset (failed_at rest) ≡ (unknown, failed_at rest)
unfolding read_command read_operands
read_command-failed_at unset rest = refl

display_steps-failed_at :
    (k : ℕ) (unset : ℤ) (rest : Text) (n : Node)
    → display_steps k unset reads (failed_at rest) n ≡ some (reads, failed_at rest, n)
unfolding display_steps run_command
display_steps-failed_at zero unset rest n = refl
display_steps-failed_at (suc k) unset rest n =
    ap (λ p. run_command p.0 n >>= with_input p.1 >>= later k unset)
      (read_command-failed_at unset rest)
    ∙ display_steps-failed_at k unset rest n

-- A text that starts with no digit, no sign and no space.
abbrev pub IsNoNumber : Text → Type 0
IsNoNumber [] = ⊥
IsNoNumber (c ∷ s) = (is_space c ≡ false) × (is_digit c ≡ false) × ((c == 45 || c == 43) ≡ false)

read_int-IsNoNumber :
    (unset : ℤ) (s : Text)
    → IsNoNumber s
    → read_int (open_in (32 ∷ s)) unset ≡ (pos 0, record { rest = s; failed = true })
read_int-IsNoNumber unset [] h = absurd h
read_int-IsNoNumber unset (c ∷ s) h = ground (arith, h)

-- When `add` is typed with two words and then with what does not start as a number does, the loop of
-- `display` reads it as the command to add the server with the port 0, and begins to run this command;
-- the stream has failed then, and when the loop comes to its next command it does nothing more,
-- whatever is typed and however often it turns.
pub add_without_port :
    (unset : ℤ) (hostname ip s input : Text)
    → IsWord hostname
    → IsWord ip
    → IsNoNumber s
    → skip_space input ≡ codes "add" ++ (32 ∷ hostname ++ (32 ∷ ip ++ (32 ∷ s)))
    → (read_command unset (open_in input) ≡ (add hostname ip 0, failed_at s))
      × ((n : Node)
          → display_step unset reads (open_in input) n
            ≡ (run_command (add hostname ip 0) n >>= with_input (failed_at s)))
      × ((k : ℕ) (n : Node)
          → display_steps k unset reads (failed_at s) n ≡ some (reads, failed_at s, n))
unfolding read_operands display_step
add_without_port unset hostname ip s input h k other e =
    let command : read_command unset (open_in input) ≡ (add hostname ip 0, failed_at s) =
      read_command-word unset (codes "add") (32 ∷ hostname ++ (32 ∷ ip ++ (32 ∷ s))) input
        (refl, (refl, (refl, tt))) refl e
      ∙ ap
          (λ p.
            let (ip, input) = read_string p.1 [] in
            let (port, input') = read_int input unset in (add p.0 ip (int_bits port), input'))
          (read_word hostname (ip ++ (32 ∷ s)) h).0
      ∙ ap
          (λ p.
            let (port, input') = read_int p.1 unset in (add hostname p.0 (int_bits port), input'))
          (read_word ip s k).0
      ∙ ap (λ p. (add hostname ip (int_bits p.0), p.1)) (read_int-IsNoNumber unset s other) in
    (
      command,
      λ n. ap (λ p. run_command p.0 n >>= with_input p.1) command,
      λ k n. display_steps-failed_at k unset s n,
    )
