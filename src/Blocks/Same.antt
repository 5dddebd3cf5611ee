-- ===== src/Blocks/Same.antt =====
-- Blocks with the same ranges and other entries are apart in the same way.
use thkvs.Base.{◌≡◌, refl, inl, inr, List, [], ◌∷◌, arith}
use thkvs.Blocks.{Hashlist}
use thkvs.Blocks.Kept.{Held, IsApart, ApartFrom, AreApart}

-- The same ranges, with other entries.
abbrev pub SameRanges : List Held → List Held → Type 0
SameRanges [] [] = Unit
SameRanges (g ∷ gs) (k ∷ ks) = (g.0.begin ≡ k.0.begin) × (g.0.end ≡ k.0.end) × SameRanges gs ks
SameRanges _ _ = ⊥

pub SameRanges-refl : (gs : List Held) → SameRanges gs gs
SameRanges-refl [] = tt
SameRanges-refl (g ∷ gs) = (refl, refl, SameRanges-refl gs)

pub ApartFrom-same :
    (b c : Hashlist) (gs ks : List Held)
    → b.begin ≡ c.begin
    → b.end ≡ c.end
    → SameRanges gs ks
    → ApartFrom b gs
    → ApartFrom c ks
ApartFrom-same b c [] [] l m s a = tt
ApartFrom-same b c (g ∷ gs) [] l m s a = absurd s
ApartFrom-same b c [] (k ∷ ks) l m s a = absurd s
ApartFrom-same b c (g ∷ gs) (k ∷ ks) l m s a = (here a.0, ApartFrom-same b c gs ks l m s.2 a.1)
  where
    here : IsApart b g.0 → IsApart c k.0
    here (inl h) = let s0 = s.0 in inl (omega arith)
    here (inr h) = let s1 = s.1 in inr (omega arith)

pub AreApart-same : (gs ks : List Held) → SameRanges gs ks → AreApart gs → AreApart ks
AreApart-same [] [] s a = tt
AreApart-same (g ∷ gs) [] s a = absurd s
AreApart-same [] (k ∷ ks) s a = absurd s
AreApart-same (g ∷ gs) (k ∷ ks) s a =
    (ApartFrom-same g.0 k.0 gs ks s.0 s.1 s.2 a.0, AreApart-same gs ks s.2 a.1)
