-- ===== src/Main/Script.antt =====
-- main.cpp, the commands of `display` written as lines: what the loop makes of them.
use thkvs.Base.{
  ℕ, ◌^◌, ◌<◌, ◌≡◌, refl, ap, ◌∙◌, [], ◌∷◌, ◌++◌, true, false, if◌then◌else◌, Text, codes, decimal,
  arith,
}
use thkvs.Base.Int.{ℤ, pos}
use thkvs.Disk.{open_in, skip_space, starts_digit, number, after_number, read_string, read_int}
use thkvs.Disk.Numbers.{
  number-decimal, after_number-decimal, starts_digit-decimal, skip_space-digit,
}
use thkvs.Disk.Signed.{IsWord, starts_space, read_string-word}
use thkvs.Main.{
  Command, put, get, set, add, test, remove, unknown, read_put, read_add, read_operands,
  read_command, int_bits,
}

-- A command as it is typed, with what is typed behind it.
abbrev pub typed : Command → Text → Text
typed (put key value) rest = codes "put" ++ (32 ∷ key ++ (32 ∷ value ++ (10 ∷ rest)))
typed (get key) rest = codes "get" ++ (32 ∷ key ++ (10 ∷ rest))
typed (set flag) rest = codes "set" ++ (32 ∷ (if flag then codes "1" else codes "0") ++ (10 ∷ rest))
typed (add hostname ip port) rest =
    codes "add" ++ (32 ∷ hostname ++ (32 ∷ ip ++ (32 ∷ decimal port ++ (10 ∷ rest))))
typed test rest = codes "test" ++ (10 ∷ rest)
typed (remove hostname) rest = codes "remove" ++ (32 ∷ hostname ++ (10 ∷ rest))
typed unknown rest = codes "unknown" ++ (10 ∷ rest)

-- The words of a command are words, and a port is not negative.
abbrev pub CanType : Command → Type 0
CanType (put key value) = IsWord key × IsWord value
CanType (get key) = IsWord key
CanType (set flag) = Unit
CanType (add hostname ip port) = IsWord hostname × IsWord ip × (port < 2 ^ 31)
CanType test = Unit
CanType (remove hostname) = IsWord hostname
CanType unknown = Unit

read_int-digit :
    (input t : Text) (old : ℤ)
    → skip_space input ≡ t
    → starts_digit t ≡ true
    → number 0 t < 2 ^ 31
    → read_int (open_in input) old ≡ (pos (number 0 t), open_in (after_number t))
read_int-digit input [] old e d l = ground arith
read_int-digit input (c ∷ t) old e d l = rw e (ground arith)

read_int-decimal :
    (s : Text) (old : ℤ) (n : ℕ)
    → starts_digit s ≡ false
    → n < 2 ^ 31
    → read_int (open_in (32 ∷ decimal n ++ s)) old ≡ (pos n, open_in s)
read_int-decimal s old n other l =
    read_int-digit (32 ∷ decimal n ++ s) (decimal n ++ s) old
      (skip_space-digit (decimal n ++ s) (starts_digit-decimal n s)) (starts_digit-decimal n s)
      (rw (number-decimal n s other) l)
    ∙ rw (number-decimal n s other, after_number-decimal n s other) refl

-- The next word behind a space, with a space or the end of the line behind it.
pub read_word :
    (w rest : Text)
    → IsWord w
    → (read_string (open_in (32 ∷ w ++ (32 ∷ rest))) [] ≡ (w, open_in (32 ∷ rest)))
      × (read_string (open_in (32 ∷ w ++ (10 ∷ rest))) [] ≡ (w, open_in (10 ∷ rest)))
read_word w rest h = (
  read_string-word (32 ∷ rest) refl (32 ∷ w ++ (32 ∷ rest)) w [] refl h,
  read_string-word (10 ∷ rest) refl (32 ∷ w ++ (10 ∷ rest)) w [] refl h,
)

pub read_command-word :
    (unset : ℤ) (op rest input : Text)
    → IsWord op
    → starts_space rest ≡ true
    → skip_space input ≡ skip_space (op ++ rest)
    → read_command unset (open_in input) ≡ read_operands unset op (open_in rest)
unfolding read_command
read_command-word unset op rest input h s e =
    ap (λ p. read_operands unset p.0 p.1) (read_string-word rest s input op [] e h)

read_put-typed :
    (key value rest : Text)
    → IsWord key
    → IsWord value
    → read_put (open_in (32 ∷ key ++ (32 ∷ value ++ (10 ∷ rest))))
      ≡ (put key value, open_in (10 ∷ rest))
read_put-typed key value rest h k =
    ap (λ p. (put p.0 (read_string p.1 []).0, (read_string p.1 []).1))
      (read_word key (value ++ (10 ∷ rest)) h).0
    ∙ ap (λ p. (put key p.0, p.1)) (read_word value rest k).1

read_add-typed :
    (unset : ℤ) (hostname ip rest : Text) (port : ℕ)
    → IsWord hostname
    → IsWord ip
    → port < 2 ^ 31
    → read_add unset (open_in (32 ∷ hostname ++ (32 ∷ ip ++ (32 ∷ decimal port ++ (10 ∷ rest)))))
      ≡ (add hostname ip port, open_in (10 ∷ rest))
read_add-typed unset hostname ip rest port h k l =
    ap
      (λ p.
        let (ip, input) = read_string p.1 [] in
        let (port, input') = read_int input unset in (add p.0 ip (int_bits port), input'))
      (read_word hostname (ip ++ (32 ∷ decimal port ++ (10 ∷ rest))) h).0
    ∙ ap
        (λ p. let (port, input') = read_int p.1 unset in (add hostname p.0 (int_bits port), input'))
        (read_word ip (decimal port ++ (10 ∷ rest)) k).0
    ∙ ap (λ p. (add hostname ip (int_bits p.0), p.1))
        (read_int-decimal (10 ∷ rest) unset port refl l)

-- A command that is typed is read as the command, and the stream is then behind it.
pub read_command-typed :
    (unset : ℤ) (c : Command) (input rest : Text)
    → CanType c
    → skip_space input ≡ skip_space (typed c rest)
    → read_command unset (open_in input) ≡ (c, open_in (10 ∷ rest))
unfolding read_operands
read_command-typed unset (put key value) input rest h e =
    read_command-word unset (codes "put") (32 ∷ key ++ (32 ∷ value ++ (10 ∷ rest))) input
      (refl, (refl, (refl, tt))) refl e
    ∙ read_put-typed key value rest h.0 h.1
read_command-typed unset (get key) input rest h e =
    read_command-word unset (codes "get") (32 ∷ key ++ (10 ∷ rest)) input (refl, (refl, (refl, tt)))
      refl e
    ∙ ap (λ p. (get p.0, p.1)) (read_word key rest h).1
read_command-typed unset (set true) input rest h e =
    read_command-word unset (codes "set") (32 ∷ codes "1" ++ (10 ∷ rest)) input
      (refl, (refl, (refl, tt))) refl e
read_command-typed unset (set false) input rest h e =
    read_command-word unset (codes "set") (32 ∷ codes "0" ++ (10 ∷ rest)) input
      (refl, (refl, (refl, tt))) refl e
read_command-typed unset (add hostname ip port) input rest h e =
    read_command-word unset (codes "add")
      (32 ∷ hostname ++ (32 ∷ ip ++ (32 ∷ decimal port ++ (10 ∷ rest)))) input
      (refl, (refl, (refl, tt))) refl e
    ∙ read_add-typed unset hostname ip rest port h.0 h.1 h.2
read_command-typed unset test input rest h e =
    read_command-word unset (codes "test") (10 ∷ rest) input (refl, (refl, (refl, (refl, tt)))) refl
      e
read_command-typed unset (remove hostname) input rest h e =
    read_command-word unset (codes "remove") (32 ∷ hostname ++ (10 ∷ rest)) input
      (refl, (refl, (refl, (refl, (refl, (refl, tt)))))) refl e
    ∙ ap (λ p. (remove p.0, p.1)) (read_word hostname rest h).1
read_command-typed unset unknown input rest h e =
    read_command-word unset (codes "unknown") (10 ∷ rest) input
      (refl, (refl, (refl, (refl, (refl, (refl, (refl, tt))))))) refl e
