-- ===== src/Blocks/Kept.antt =====
-- src/data.cpp, what holds between two requests: the blocks of `hl` do not overlap, but for their
-- ends, and the file of each holds its entries, in ascending order.
use thkvs.Base.{
  ℕ, suc, ◌^◌, ◌≤◌, ◌<◌, ◌≡◌, ◌∙◌, inl, inr, ◌⊎◌, List, [], ◌∷◌, ◌++◌, map, false, some,
  if◌then◌else◌, Text, text_eq, All, All-mono, All-append, length, arith,
}
use thkvs.Base.Int.{ℤ}
use thkvs.Disk.{Files}
use thkvs.Blocks.{Value, Hashlist, Blocks, block_name, holds, lines}
use thkvs.Blocks.Lines.{Fits}
use thkvs.Blocks.Filled.{IsFilled, copies}
use thkvs.Blocks.Names.{block_name_differ}

-- A block with the entries that its file holds.
abbrev pub Held : Type 0
Held = Hashlist × List Value

pub record IsHeld (files : Files) (g : Held) : Type 0 where
  pub file : files (block_name g.0) ≡ some (lines g.1)
  pub cnt : g.0.cnt ≡ length g.1
  pub most : g.0.cnt ≤ 20
  pub fits : All Fits g.1
  pub filled : IsFilled g.0.begin g.0.end g.1
  pub range : g.0.begin < g.0.end
  pub last : g.0.end < 2 ^ 32

-- Only the ends may be shared.
abbrev pub IsApart : Hashlist → Hashlist → Type 0
IsApart b c = (b.end ≤ c.begin) ⊎ (c.end ≤ b.begin)

abbrev pub ApartFrom : Hashlist → List Held → Type 0
ApartFrom b gs = All (λ x. IsApart b x.0) gs

abbrev pub AreApart : List Held → Type 0
AreApart [] = Unit
AreApart (g ∷ gs) = ApartFrom g.0 gs × AreApart gs

pub record IsKept (s : Blocks) (gs : List Held) : Type 0 where
  pub hl : s.hl ≡ map (λ g. g.0) gs
  pub held : All (IsHeld s.files) gs
  pub apart : AreApart gs

-- All entries of a hash, in the order of the blocks.
abbrev pub copies_in : ℕ → List Held → List (Text × ℤ)
copies_in h [] = []
copies_in h (g ∷ gs) = copies h g.1 ++ copies_in h gs

-- How many blocks hold the hash in their range.
abbrev pub holders : ℕ → List Hashlist → ℕ
holders h [] = 0
holders h (b ∷ bs) = if holds b h then suc (holders h bs) else holders h bs

abbrev pub Misses : ℕ → List Held → Type 0
Misses h gs = All (λ g. holds g.0 h ≡ false) gs

pub IsApart-sym : (b c : Hashlist) → IsApart b c → IsApart c b
IsApart-sym b c (inl l) = inr l
IsApart-sym b c (inr l) = inl l

pub IsApart-within :
    (b b' c : Hashlist) → b.begin ≤ b'.begin → b'.end ≤ b.end → IsApart b c → IsApart b' c
IsApart-within b b' c l m (inl h) = inl (omega arith)
IsApart-within b b' c l m (inr h) = inr (omega arith)

pub ApartFrom-within :
    (b b' : Hashlist) (gs : List Held)
    → b.begin ≤ b'.begin
    → b'.end ≤ b.end
    → ApartFrom b gs
    → ApartFrom b' gs
ApartFrom-within b b' gs l m h =
    All-mono (λ x. IsApart b x.0) (λ x. IsApart b' x.0) gs (λ x. IsApart-within b b' x.0 l m) h

pub ApartFrom-append :
    (b : Hashlist) (xs ys : List Held) → ApartFrom b xs → ApartFrom b ys → ApartFrom b (xs ++ ys)
ApartFrom-append b xs ys = All-append (λ x. IsApart b x.0) xs ys

pub All-split {ℓ κ} :
    {A : Type ℓ} (P : A → Type κ) (xs ys : List A) → All P (xs ++ ys) → All P xs × All P ys
All-split P [] ys h = (tt, h)
All-split P (x ∷ xs) ys h = let r = All-split P xs ys h.1 in ((h.0, r.0), r.1)

-- One of the blocks is apart from the ones before it and from the ones behind it.
pub AreApart-pick :
    (pre : List Held) (g : Held) (post : List Held)
    → AreApart (pre ++ g ∷ post)
    → ApartFrom g.0 pre × ApartFrom g.0 post
AreApart-pick [] g post h = (tt, h.0)
AreApart-pick (x ∷ pre) g post h =
    let r = AreApart-pick pre g post h.1 in
    let here = All-split (λ y. IsApart x.0 y.0) pre (g ∷ post) h.0 in
    ((IsApart-sym x.0 g.0 here.1.0, r.0), r.1)

-- Another block may take its place if it is apart from them too.
pub AreApart-put :
    (pre : List Held) (g g' : Held) (post : List Held)
    → AreApart (pre ++ g ∷ post)
    → ApartFrom g'.0 pre
    → ApartFrom g'.0 post
    → AreApart (pre ++ g' ∷ post)
AreApart-put [] g g' post h before behind = (behind, h.1)
AreApart-put (x ∷ pre) g g' post h before behind =
    let r = All-split (λ y. IsApart x.0 y.0) pre (g ∷ post) h.0 in
    (
      All-append (λ y. IsApart x.0 y.0) pre (g' ∷ post) r.0 (IsApart-sym g'.0 x.0 before.0, r.1.1),
      AreApart-put pre g g' post h.1 before.1 behind,
    )

pub AreApart-append :
    (xs ys : List Held)
    → AreApart xs
    → AreApart ys
    → All (λ y. ApartFrom y.0 xs) ys
    → AreApart (xs ++ ys)
AreApart-append [] ys h k a = k
AreApart-append (x ∷ xs) ys h k a = (
  All-append (λ y. IsApart x.0 y.0) xs ys h.0
      (All-mono (λ y. ApartFrom y.0 (x ∷ xs)) (λ y. IsApart x.0 y.0) ys
        (λ y b. IsApart-sym y.0 x.0 b.0) a),
  AreApart-append xs ys h.1 k
      (All-mono (λ y. ApartFrom y.0 (x ∷ xs)) (λ y. ApartFrom y.0 xs) ys (λ y b. b.1) a),
)

-- Files of blocks that are apart from `b` are left as they are.
abbrev pub Elsewhere : Hashlist → Files → Files → Type 0
Elsewhere b files files' =
    (x : Hashlist)
    → IsApart b x
    → x.begin < x.end
    → x.end < 2 ^ 32
    → files' (block_name x) ≡ files (block_name x)

pub IsHeld-Elsewhere :
    (b : Hashlist) (files files' : Files) (gs : List Held)
    → Elsewhere b files files'
    → ApartFrom b gs
    → All (IsHeld files) gs
    → All (IsHeld files') gs
IsHeld-Elsewhere b files files' [] e a h = tt
IsHeld-Elsewhere b files files' (g ∷ gs) e a h =
    let k = h.0 in
    (
      record {
        file = e g.0 a.0 k.range k.last ∙ k.file;
        cnt = k.cnt;
        most = k.most;
        fits = k.fits;
        filled = k.filled;
        range = k.range;
        last = k.last;
      },
      IsHeld-Elsewhere b files files' gs e a.1 h.1,
    )

-- Blocks that are apart have different files.
pub IsApart-differ :
    (b x : Hashlist)
    → IsApart b x
    → b.begin < b.end
    → b.end < 2 ^ 32
    → x.begin < x.end
    → x.end < 2 ^ 32
    → text_eq (block_name b) (block_name x) ≡ false
IsApart-differ b x a l m l' m' =
    block_name_differ b x (omega arith) m (omega arith) m'
      (elim a [ inl h ↦ inl (λ e. omega arith) | inr h ↦ inl (λ e. omega arith) ])
