-- ===== src/Tree/Buffers.antt =====
-- Numbers and texts in a buffer: what is written at one index and read at another.
use thkvs.Base.{
  false, ℕ, zero, suc, ◌+◌, ◌-◌, ◌*◌, ◌/◌, ◌%◌, ◌^◌, ◌≤◌, ◌<◌, ◌≡◌, refl, ◌∙◌, ◌⊎◌, inl, inr, List,
  [], ◌∷◌, ◌==◌, Text, if◌then◌else◌, true, ◌&&◌, leb, ltb, All, length, take, arith,
}
use thkvs.Tree.{
  Buffer, File, read_at, write_at, fails_at, seek_read, seek_write, put_int, get_int, put_ints,
  get_ints, put_text, get_text,
}

pub get_int-put_int : (off w : ℕ) (buf : Buffer) → w < 2 ^ 32 → get_int off (put_int off w buf) ≡ w
unfolding get_int
get_int-put_int off w buf l = rw (first, second, third, fourth) (omega arith)
  where
    first : put_int off w buf off ≡ w % 256
    first = unfold put_int in ground arith

    second : put_int off w buf (off + 1) ≡ w / 256 % 256
    second = unfold put_int in ground arith

    third : put_int off w buf (off + 2) ≡ w / 65536 % 256
    third = unfold put_int in ground arith

    fourth : put_int off w buf (off + 3) ≡ w / 16777216 % 256
    fourth = unfold put_int in ground arith

put_int-other :
    (off w i : ℕ) (buf : Buffer) → (i < off) ⊎ (off + 4 ≤ i) → put_int off w buf i ≡ buf i
unfolding put_int
put_int-other off w i buf (inl l) = ground arith
put_int-other off w i buf (inr l) = ground arith

pub put_ints-other :
    (off i : ℕ) (ws : List ℕ) (buf : Buffer)
    → (i < off) ⊎ (off + 4 * length ws ≤ i)
    → put_ints off ws buf i ≡ buf i
unfolding put_ints
put_ints-other off i [] buf o = refl
put_ints-other off i (w ∷ ws) buf (inl l) =
    put_ints-other (off + 4) i ws (put_int off w buf) (inl (omega arith))
    ∙ put_int-other off w i buf (inl l)
put_ints-other off i (w ∷ ws) buf (inr l) =
    put_ints-other (off + 4) i ws (put_int off w buf) (inr (omega arith))
    ∙ put_int-other off w i buf (inr (omega arith))

put_text-other :
    (off i : ℕ) (s : Text) (buf : Buffer)
    → (i < off) ⊎ (off + length s ≤ i)
    → put_text off s buf i ≡ buf i
unfolding put_text
put_text-other off i [] buf o = refl
put_text-other off i (c ∷ s) buf (inl l) =
    put_text-other (off + 1) i s (λ i. if i == off then c else buf i) (inl (omega arith))
    ∙ ground arith
put_text-other off i (c ∷ s) buf (inr l) =
    put_text-other (off + 1) i s (λ i. if i == off then c else buf i) (inr (omega arith))
    ∙ ground arith

-- Two buffers that are the same from one index to another.
abbrev pub Agree : ℕ → ℕ → Buffer → Buffer → Type 0
Agree lo hi a b = (i : ℕ) → lo ≤ i → i < hi → a i ≡ b i

pub get_int-Agree :
    (off : ℕ) (a b : Buffer) → Agree off (off + 4) a b → get_int off a ≡ get_int off b
unfolding get_int
get_int-Agree off a b h =
    rw
      (
        h off (omega arith) (omega arith),
        h (off + 1) (omega arith) (omega arith),
        h (off + 2) (omega arith) (omega arith),
        h (off + 3) (omega arith) (omega arith),
      )
      refl

pub get_ints-Agree :
    (n off : ℕ) (a b : Buffer) → Agree off (off + 4 * n) a b → get_ints n off a ≡ get_ints n off b
unfolding get_ints
get_ints-Agree zero off a b h = refl
get_ints-Agree (suc n) off a b h =
    rw
      (
        get_int-Agree off a b (λ i l m. h i l (omega arith)),
        get_ints-Agree n (off + 4) a b (λ i l m. h i (omega arith) (omega arith)),
      )
      refl

pub get_text-Agree :
    (n off : ℕ) (a b : Buffer) → Agree off (off + n) a b → get_text n off a ≡ get_text n off b
unfolding get_text
get_text-Agree zero off a b h = refl
get_text-Agree (suc n) off a b h =
    rw
      (
        h off (omega arith) (omega arith),
        get_text-Agree n (off + 1) a b (λ i l m. h i (omega arith) (omega arith)),
      )
      refl

pub get_int-put_int_other :
    (off off' w : ℕ) (buf : Buffer)
    → (off + 4 ≤ off') ⊎ (off' + 4 ≤ off)
    → get_int off (put_int off' w buf) ≡ get_int off buf
get_int-put_int_other off off' w buf (inl o) =
    get_int-Agree off (put_int off' w buf) buf
      (λ i l m. put_int-other off' w i buf (inl (omega arith)))
get_int-put_int_other off off' w buf (inr o) =
    get_int-Agree off (put_int off' w buf) buf
      (λ i l m. put_int-other off' w i buf (inr (omega arith)))

pub get_int-put_ints :
    (off off' : ℕ) (ws : List ℕ) (buf : Buffer)
    → off + 4 ≤ off'
    → get_int off (put_ints off' ws buf) ≡ get_int off buf
get_int-put_ints off off' ws buf o =
    get_int-Agree off (put_ints off' ws buf) buf
      (λ i l m. put_ints-other off' i ws buf (inl (omega arith)))

pub get_int-put_text :
    (off off' : ℕ) (s : Text) (buf : Buffer)
    → off + 4 ≤ off'
    → get_int off (put_text off' s buf) ≡ get_int off buf
get_int-put_text off off' s buf o =
    get_int-Agree off (put_text off' s buf) buf
      (λ i l m. put_text-other off' i s buf (inl (omega arith)))

pub get_text-put_text_other :
    (n off off' : ℕ) (s : Text) (buf : Buffer)
    → off + n ≤ off'
    → get_text n off (put_text off' s buf) ≡ get_text n off buf
get_text-put_text_other n off off' s buf o =
    get_text-Agree n off (put_text off' s buf) buf
      (λ i l m. put_text-other off' i s buf (inl (omega arith)))

-- Numbers below 2 ^ 32 that are written one behind the other are read back, as many as are asked for.
pub get_ints-put_ints :
    (n off : ℕ) (ws : List ℕ) (buf : Buffer)
    → All (λ w. w < 2 ^ 32) ws
    → n ≤ length ws
    → get_ints n off (put_ints off ws buf) ≡ take n ws
unfolding get_ints put_ints
get_ints-put_ints zero off ws buf h l = refl
get_ints-put_ints (suc n) off [] buf h l = absurd (omega arith)
get_ints-put_ints (suc n) off (w ∷ ws) buf h l =
    rw
      (
        get_int-put_ints off (off + 4) ws (put_int off w buf) (omega arith),
        get_int-put_int off w buf h.0,
        get_ints-put_ints n (off + 4) ws (put_int off w buf) h.1 (omega arith),
      )
      refl

pub get_text-put_text :
    (off : ℕ) (s : Text) (buf : Buffer) → get_text (length s) off (put_text off s buf) ≡ s
unfolding get_text put_text
get_text-put_text off [] buf = refl
get_text-put_text off (c ∷ s) buf =
    let here : put_text (off + 1) s (λ i. if i == off then c else buf i) off ≡ c =
      put_text-other (off + 1) off s (λ i. if i == off then c else buf i) (inl (omega arith))
      ∙ ground arith in
    rw (here, get_text-put_text (off + 1) s (λ i. if i == off then c else buf i)) refl

-- What is written to the file at a place is read there.
pub read_at-write_at :
    (pos n m : ℕ) (buf old : Buffer) (file : File) (lo hi : ℕ)
    → hi ≤ n
    → hi ≤ m
    → Agree lo hi (read_at pos m (write_at pos n buf file) old) buf
unfolding read_at write_at
read_at-write_at pos n m buf old file lo hi l k i a b =
    let back : pos + i - pos ≡ i = omega arith in
    let inside : (leb pos (pos + i) && ltb (pos + i) (pos + n)) ≡ true = ground arith in
    let size : ltb (pos + i) (if ltb file.size (pos + n) then pos + n else file.size) ≡ true =
      ground arith in
    let small : ltb i m ≡ true = ground arith in rw (small, size, inside, back) refl

-- A seek to a place below 2 ^ 31 succeeds on a stream that has not failed.
module _ (pos n : ℕ) (buf : Buffer) (file : File) (good : file.failed ≡ false)
    (place : pos < 0x8000_0000) where
  fails_at-below : fails_at pos file ≡ false
  unfolding fails_at
  fails_at-below = ground arith

  pub seek_write-write_at : seek_write pos n buf file ≡ write_at pos n buf file
  unfolding seek_write
  seek_write-write_at = rw (fails_at-below, seek_write) refl

  -- And what is read is in the file.
  pub seek_read-read_at :
      pos + n ≤ file.size
      → seek_read pos n file buf ≡ (read_at pos n file buf, record file { failed = false })
  unfolding seek_read
  seek_read-read_at whole =
      let enough : ltb file.size (pos + n) ≡ false = ground arith in
      rw (fails_at-below, seek_read, enough) refl
