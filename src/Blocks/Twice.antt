-- ===== src/Blocks/Twice.antt =====
-- src/data.cpp, how often a put is answered by blocks that do not overlap but for their ends.
use thkvs.Base.{
  ℕ, suc, ◌+◌, ◌≤◌, ◌<◌, ◌≡◌, refl, ap, ◌∙◌, inl, inr, List, [], ◌∷◌, map, Bool, true, false, ◌&&◌,
  Bool-cases, if◌then◌else◌, if_true, if_false, ltb, leb, All, All-mono, length, arith,
}
use thkvs.Base.Int.{ℤ}
use thkvs.State.{Node, KeyValue}
use thkvs.Blocks.{Value, Hashlist, Blocks}
use thkvs.Blocks.Serve.{put_blocks}
use thkvs.Blocks.Kept.{Held, IsHeld, IsKept, IsApart, AreApart, holders}
use thkvs.Blocks.Covered.{covered}
use thkvs.Blocks.Answers.{put_replies, put_blocks-Answers}

-- A hash in the range without its end, and without its beginning.
abbrev below_end : ℕ → Hashlist → Bool
below_end h b = leb b.begin h && ltb h b.end

abbrev behind_begin : ℕ → Hashlist → Bool
behind_begin h b = ltb b.begin h && leb h b.end

module _ (half : ℕ → Hashlist → Bool) where
  abbrev halves : ℕ → List Held → ℕ
  halves h [] = 0
  halves h (g ∷ gs) = if half h g.0 then suc (halves h gs) else halves h gs

  halves_zero : (h : ℕ) (gs : List Held) → All (λ g. half h g.0 ≡ false) gs → halves h gs ≡ 0
  halves_zero h [] a = refl
  halves_zero h (g ∷ gs) a = if_false _ a.0 ∙ halves_zero h gs a.1

  -- Of blocks that are apart one half at most has the hash, if two that have it are not apart.
  halves_one :
      ((h : ℕ) (b c : Hashlist) → IsApart b c → half h b ≡ true → half h c ≡ false)
      → (h : ℕ) (gs : List Held) → AreApart gs
      → halves h gs ≤ 1
  halves_one single h [] a = omega arith
  halves_one single h (g ∷ gs) a = elim (Bool-cases (half h g.0)) [
    | inl e ↦
        let others =
          All-mono (λ x. IsApart g.0 x.0) (λ x. half h x.0 ≡ false) gs (λ x i. single h g.0 x.0 i e)
            a.0 in
        let k : halves h (g ∷ gs) ≡ suc (halves h gs) = if_true _ e in
        omega (arith, k, halves_zero h gs others)
    | inr e ↦
        let k : halves h (g ∷ gs) ≡ halves h gs = if_false _ e in
        omega (arith, k, halves_one single h gs a.1)
  ]

below_end_single :
    (h : ℕ) (b c : Hashlist) → IsApart b c → below_end h b ≡ true → below_end h c ≡ false
below_end_single h b c (inl l) e = ground arith
below_end_single h b c (inr l) e = ground arith

behind_begin_single :
    (h : ℕ) (b c : Hashlist) → IsApart b c → behind_begin h b ≡ true → behind_begin h c ≡ false
behind_begin_single h b c (inl l) e = ground arith
behind_begin_single h b c (inr l) e = ground arith

holders-le-halves :
    (h : ℕ) (gs : List Held)
    → All (λ g. g.0.begin < g.0.end) gs
    → holders h (map (λ g. g.0) gs) ≤ halves below_end h gs + halves behind_begin h gs
holders-le-halves h [] r = omega arith
holders-le-halves h (g ∷ gs) r =
    let ih = holders-le-halves h gs r.1 in
    let r0 = r.0 in
    both g.0.begin g.0.end (holders h (map (λ g. g.0) gs)) (halves below_end h gs)
      (halves behind_begin h gs) r0 ih
  where
    both :
        (begin end k l m : ℕ)
        → begin < end
        → k ≤ l + m
        → (if leb begin h && leb h end then suc k else k)
          ≤ (if leb begin h && ltb h end then suc l else l)
            + (if ltb begin h && leb h end then suc m else m)
    both begin end k l m r ih = ground arith

-- In blocks with files that hold their entries, and that share their ends at most, a put to a hash
-- that lies in the range of one is answered, once or twice and no more.
pub put_blocks_replies :
    (kv : KeyValue) (hash : ℕ) (t : ℤ) (s : Blocks) (gs : List Held) (tmp : List Value) (n : Node)
    → IsKept s gs
    → covered hash s.hl ≡ true
    → (statuses : List ℕ) × ((put_blocks kv hash t s.hl s.files tmp n).node
        ≡ put_replies kv statuses n)
      × (1 ≤ length statuses)
      × (length statuses ≤ 2)
put_blocks_replies kv hash t s gs tmp n k c =
    let (status, more, r, l) = put_blocks-Answers kv hash t s.hl s.files tmp n c in
    let ranges = All-mono (IsHeld s.files) (λ g. g.0.begin < g.0.end) gs (λ g i. i.range) k.held in
    let same = ap (holders hash) k.hl in
    (
      status ∷ more,
      r,
      omega arith,
      omega (
        arith,
        l,
        same,
        holders-le-halves hash gs ranges,
        halves_one below_end below_end_single hash gs k.apart,
        halves_one behind_begin behind_begin_single hash gs k.apart,
      ),
    )
