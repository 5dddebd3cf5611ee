-- ===== src/Blocks/Covered.antt =====
-- src/data.cpp, that every hash stays in the range of a block, whatever the files and the variables
-- that are not set hold.
use thkvs.Base.{
  ℕ, suc, ◌/◌, ◌≡◌, refl, ◌∙◌, List, [], ◌∷◌, ◌++◌, Bool, true, false, ◌&&◌, ◌||◌, Option, none,
  some, leb, if◌then◌else◌, Text, take, bool_cases, option_cases, arith,
}
use thkvs.Base.Int.{ℤ}
use thkvs.State.{Node, KeyValue}
use thkvs.Store.{put_return, recv_move_data_return}
use thkvs.Disk.{Files}
use thkvs.Blocks.{
  Value, Hashlist, Stored, block_name, key_at, has_key, holds, save, place, store_in,
}
use thkvs.Blocks.Serve.{Pass, stop, go_on, after_split, blocks_of, put_blocks, take_blocks}

abbrev pub covered : ℕ → List Hashlist → Bool
covered h [] = false
covered h (b ∷ bs) = holds b h || covered h bs

covered-append :
    (h : ℕ) (xs ys : List Hashlist) → covered h (xs ++ ys) ≡ (covered h xs || covered h ys)
covered-append h [] ys = refl
covered-append h (x ∷ xs) ys = ground (arith, covered-append h xs ys)

abbrev pub in_split : ℕ → Option Hashlist → Bool
in_split h none = false
in_split h (some t) = holds t h

-- The hashes of a block lie in what it has become.
abbrev Spreads : Hashlist → Stored → Type 0
Spreads b s = (h : ℕ) → holds b h ≡ true → (holds s.block h || in_split h s.split) ≡ true

Spreads-if :
    (c : Bool) (b : Hashlist) (x y : Stored)
    → Spreads b x
    → Spreads b y
    → Spreads b (if c then x else y)
Spreads-if true b x y p q = p
Spreads-if false b x y p q = q

save-Spreads : (b : Hashlist) (tmp : List Value) (files : Files) → Spreads b (save b tmp files)
unfolding save
save-Spreads b tmp files =
    Spreads-if (leb b.cnt 20) b _ _ (λ h k. rw k refl)
      (λ h k. halves b.begin (key_at tmp (b.cnt / 2)) b.end h k)
  where
    halves :
        (begin key end h : ℕ)
        → (leb begin h && leb h end) ≡ true
        → (leb begin h && leb h key || leb key h && leb h end) ≡ true
    halves begin key end h k = ground arith

place-Spreads :
    (hash : ℕ) (value : Text) (t : ℤ) (b : Hashlist) (read : List Value) (files : Files)
    → Spreads b (place hash value t b read files)
unfolding place
place-Spreads hash value t b read files =
    Spreads-if (has_key hash (take b.cnt read)) b _ _ (save-Spreads b _ files)
      (save-Spreads (record b { cnt = suc b.cnt }) _ files)

store_in-Spreads :
    (hash : ℕ) (value : Text) (t : ℤ) (b : Hashlist) (bytes : Text) (tmp : List Value)
    (files : Files)
    → Spreads b (store_in hash value t b bytes tmp files)
unfolding store_in
store_in-Spreads hash value t b bytes tmp files = place-Spreads hash value t b _ files

-- A hash lies in the blocks that a pass leaves.
abbrev Inside : ℕ → Pass → Type 0
Inside h p = (covered h p.hl || covered h p.pushed) ≡ true

module _ (h : ℕ) where
  -- A pass stops at a block, which may have changed.
  stop-Inside :
      (b c : Hashlist) (bs : List Hashlist) (files : Files) (tmp : List Value) (n : Node)
      (err : Bool)
      → (holds b h ≡ true → holds c h ≡ true)
      → covered h (b ∷ bs) ≡ true
      → Inside h (stop (c ∷ bs) files tmp n err)
  unfolding stop
  stop-Inside b c bs files tmp n err f e = or_false (holds b h) (holds c h) (covered h bs) f e
    where
      or_false :
          (b c bs : Bool) → (b ≡ true → c ≡ true) → (b || bs) ≡ true → ((c || bs) || false) ≡ true
      or_false b c bs f e = ground arith

  -- A pass goes on behind a block, or behind the two that it has become.
  go_on-Inside :
      (b c : Hashlist) (bs : List Hashlist) (p : Pass)
      → (holds b h ≡ true → holds c h ≡ true)
      → (covered h bs ≡ true → Inside h p)
      → covered h (b ∷ bs) ≡ true
      → Inside h (go_on c p)
  unfolding go_on
  go_on-Inside b c bs p f g e =
      or_first (holds b h) (covered h bs) (holds c h) (covered h p.hl) (covered h p.pushed) f g e
    where
      or_first :
          (b bs c p q : Bool)
          → (b ≡ true → c ≡ true)
          → (bs ≡ true → (p || q) ≡ true)
          → (b || bs) ≡ true
          → ((c || p) || q) ≡ true
      or_first b bs c p q f g e = ground arith

  after_split-Inside :
      (b c t : Hashlist) (bs : List Hashlist) (p : Pass)
      → (holds b h ≡ true → (holds c h || holds t h) ≡ true)
      → (covered h bs ≡ true → Inside h p)
      → covered h (b ∷ bs) ≡ true
      → Inside h (after_split c t p)
  unfolding after_split
  after_split-Inside b c t bs p f g e =
      or_both (holds b h) (covered h bs) (holds c h) (holds t h) (covered h p.hl)
        (covered h p.pushed) f g e
    where
      or_both :
          (b bs c t p q : Bool)
          → (b ≡ true → (c || t) ≡ true)
          → (bs ≡ true → (p || q) ≡ true)
          → (b || bs) ≡ true
          → ((c || p) || (t || q)) ≡ true
      or_both b bs c t p q f g e = ground arith

  -- With a block that has taken an entry in, whether it was divided or not.
  stored-Inside :
      (b c : Hashlist) (bs : List Hashlist) (split : Option Hashlist) (x : Pass)
      (f : Hashlist → Pass)
      → (holds b h ≡ true → (holds c h || in_split h split) ≡ true)
      → ((holds b h ≡ true → holds c h ≡ true) → Inside h x)
      → ((t : Hashlist) → (holds b h ≡ true → (holds c h || holds t h) ≡ true) → Inside h (f t))
      → Inside h (elim split [ none ↦ x | some t ↦ f t ])
  stored-Inside b c bs none x f s p q = p (λ k. ground arith)
  stored-Inside b c bs (some t) x f s p q = q t s

  pub put_blocks-Inside :
      (kv : KeyValue) (hash : ℕ) (t : ℤ) (bs : List Hashlist) (files : Files) (tmp : List Value)
      (n : Node)
      → covered h bs ≡ true
      → Inside h (put_blocks kv hash t bs files tmp n)
  unfolding put_blocks
  put_blocks-Inside kv hash t [] files tmp n e = cc
  put_blocks-Inside kv hash t (b ∷ bs) files tmp n e =
      bool_cases (Inside h) (holds b hash) _ _
        (λ _.
          go_on-Inside b b bs (put_blocks kv hash t bs files tmp n) (λ k. k)
            (put_blocks-Inside kv hash t bs files tmp n) e)
        (λ _.
          option_cases (Inside h) (files (block_name b)) _ _
            (stop-Inside b b bs files tmp (put_return n kv.id kv.ip kv.port 1) false (λ k. k) e)
            (λ bytes.
              let s = store_in hash kv.value t b bytes tmp files in
              let n' = put_return n kv.id kv.ip kv.port 0 in
              stored-Inside b s.block bs s.split _ _
                (store_in-Spreads hash kv.value t b bytes tmp files h)
                (λ k. stop-Inside b s.block bs s.files s.tmp n' false k e)
                (λ t' k.
                  after_split-Inside b s.block t' bs (put_blocks kv hash t bs s.files s.tmp n') k
                    (put_blocks-Inside kv hash t bs s.files s.tmp n') e)))

  pub take_blocks-Inside :
      (kv : KeyValue) (hash : ℕ) (value : Text) (t : ℤ) (bs : List Hashlist) (files : Files)
      (tmp : List Value) (n : Node)
      → covered h bs ≡ true
      → Inside h (take_blocks kv hash value t bs files tmp n)
  unfolding take_blocks
  take_blocks-Inside kv hash value t [] files tmp n e = cc
  take_blocks-Inside kv hash value t (b ∷ bs) files tmp n e =
      bool_cases (Inside h) (holds b hash) _ _
        (λ _.
          go_on-Inside b b bs (take_blocks kv hash value t bs files tmp n) (λ k. k)
            (take_blocks-Inside kv hash value t bs files tmp n) e)
        (λ _.
          option_cases (Inside h) (files (block_name b)) _ _
            (stop-Inside b b bs files tmp (recv_move_data_return n kv.id kv.ip kv.port 1) true
              (λ k. k) e)
            (λ bytes.
              let s = store_in hash value t b bytes tmp files in
              let rest = take_blocks kv hash value t bs s.files s.tmp n in
              stored-Inside b s.block bs s.split _ _
                (store_in-Spreads hash value t b bytes tmp files h)
                (λ k.
                  go_on-Inside b s.block bs rest k
                    (take_blocks-Inside kv hash value t bs s.files s.tmp n) e)
                (λ t' k.
                  after_split-Inside b s.block t' bs rest k
                    (take_blocks-Inside kv hash value t bs s.files s.tmp n) e)))

  pub blocks_of-covered : (p : Pass) → Inside h p → covered h (blocks_of p).hl ≡ true
  blocks_of-covered p i = covered-append h p.hl p.pushed ∙ i
