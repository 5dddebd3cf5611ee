-- ===== src/Driver/Freshness.antt =====
-- src/driver.cpp, `getReturn`: what a read returns of the writes before it.
use thkvs.Base.{
  Text, ℕ, ◌≡◌, refl, ap, ◌∙◌, ◌⊎◌, inl, inr, [], ◌∷◌, Bool, true, false, some, lookup, Bool-cases,
  ◌==◌, arith,
}
use thkvs.Base.Int.{ℤ, pos, negsuc, ◌≤ℤ◌, ltb_ℤ}
use thkvs.Driver.{get_finish, count_answer, take_newer}
use thkvs.Driver.Entries.{code, majority, closed}
use thkvs.Driver.Reads.{Answer, absorb}
use thkvs.Driver.ReadQuorum.{get_answers, settled_by, settled_entry, get_quorum}
use thkvs.State.{Node, SyncEntry, new_sync_entry}

-- The replica found a value that was written at `t` or later.
abbrev pub IsFresh : ℤ → Answer → Type 0
IsFresh t a = (a.failed ≡ false) × (t ≤ℤ a.timestamp)

code_zero : (b : Bool) → (code b == 0) ≡ true → b ≡ false
code_zero true e = cc
code_zero false e = refl

code_nonzero : (b : Bool) → (code b == 0) ≡ false → b ≡ true
code_nonzero true e = refl
code_nonzero false e = cc

-- An answer leaves the entry's value alone, or takes its place.
abbrev Kept : Answer → SyncEntry → SyncEntry → Type 0
Kept a e e' =
    (e'.timestamp ≡ e.timestamp)
    × (e'.value ≡ e.value)
    × (a.failed ≡ false → a.timestamp ≤ℤ e.timestamp)

abbrev Taken : Answer → SyncEntry → SyncEntry → Type 0
Taken a e e' =
    (a.failed ≡ false)
    × (e'.timestamp ≡ a.timestamp)
    × (e'.value ≡ a.value)
    × (e.timestamp ≤ℤ a.timestamp)

ltb_ℤ-le : (x y : ℤ) → ltb_ℤ x y ≡ true → x ≤ℤ y
ltb_ℤ-le x y h = ground arith

ltb_ℤ-ge : (x y : ℤ) → ltb_ℤ x y ≡ false → y ≤ℤ x
ltb_ℤ-ge x y h = ground arith

absorb_cases : (a : Answer) (e : SyncEntry) → Kept a e (absorb a e) ⊎ Taken a e (absorb a e)
unfolding absorb count_answer
absorb_cases a e = elim (Bool-cases (code a.failed == 0)) [
  | inr f ↦
      let t = code_nonzero a.failed f in
      inl (rw (f, take_newer), rw (f, take_newer), λ t'. absurd (both t t'))
  | inl f ↦ elim (Bool-cases (ltb_ℤ e.timestamp a.timestamp)) [
    | inl l ↦ inr (
      code_zero a.failed f,
      rw (f, take_newer, l),
      rw (f, take_newer, l),
      ltb_ℤ-le e.timestamp a.timestamp l,
    )
    | inr l ↦
        inl (rw (f, take_newer, l), rw (f, take_newer, l), λ _. ltb_ℤ-ge e.timestamp a.timestamp l)
  ]
]
  where
    both : {b : Bool} → b ≡ true → b ≡ false → ⊥
    both p q = cc

module _ (Q : Answer → Type 0) (t : ℤ) (nonneg : pos 0 ≤ℤ t) where
  -- The entry holds nothing, or what one of the answers found.
  abbrev Found : SyncEntry → Type 0
  Found e =
      (x : Answer) × Q x × (x.failed ≡ false) × (e.timestamp ≡ x.timestamp) × (e.value ≡ x.value)

  abbrev From : SyncEntry → Type 0
  From e = (e.timestamp ≡ negsuc 0) ⊎ Found e

  absorb-From : (a : Answer) (e : SyncEntry) → Q a → From e → From (absorb a e)
  absorb-From a e q (inl n) = elim (absorb_cases a e) [
    | inl k ↦ inl (k.0 ∙ n)
    | inr k ↦ inr (a, q, k.0, k.1, k.2)
  ]
  absorb-From a e q (inr (x, qx, f, p, v)) = elim (absorb_cases a e) [
    | inl k ↦ inr (x, qx, f, k.0 ∙ p, k.1 ∙ v)
    | inr k ↦ inr (a, q, k.0, k.1, k.2)
  ]

  absorb_reaches : (a : Answer) (e : SyncEntry) → IsFresh t a → t ≤ℤ (absorb a e).timestamp
  absorb_reaches a e (f, l) = elim (absorb_cases a e) [
    | inl k ↦ rw k.0 (omega (arith, k.2 f))
    | inr k ↦ rw k.1 l
  ]

  absorb_stays : (a : Answer) (e : SyncEntry) → t ≤ℤ e.timestamp → t ≤ℤ (absorb a e).timestamp
  absorb_stays a e l = elim (absorb_cases a e) [
    | inl k ↦ rw k.0 l
    | inr k ↦ rw k.1 (omega (arith, k.3))
  ]

  IsFresh-source :
      (e : SyncEntry)
      → From e
      → t ≤ℤ e.timestamp
      → (x : Answer) × Q x × IsFresh t x × (e.value ≡ x.value)
  IsFresh-source e (inl n) l = absurd (ground arith)
  IsFresh-source e (inr (x, q, f, p, v)) l = (x, q, (f, rw p at l), v)

-- Two of the three are fresh.
abbrev pub TwoFresh : ℤ → Answer → Answer → Answer → Type 0
TwoFresh t a b c =
    (IsFresh t a × IsFresh t b) ⊎ (IsFresh t a × IsFresh t c) ⊎ (IsFresh t b × IsFresh t c)

majority_fresh :
    (t : ℤ) (a b c : Answer) → TwoFresh t a b c → majority a.failed b.failed c.failed ≡ false
majority_fresh t a b c (inl (p, q)) = rw (p.0, q.0)
majority_fresh t a b c (inr (inl (p, q))) = at a.failed b.failed c.failed p.0 q.0
  where
    at : (f g h : Bool) → f ≡ false → h ≡ false → majority f g h ≡ false
    at true g h e e' = cc
    at false true h e e' = e'
    at false false h e e' = refl
majority_fresh t a b c (inr (inr (p, q))) = at a.failed b.failed c.failed p.0 q.0
  where
    at : (f g h : Bool) → g ≡ false → h ≡ false → majority f g h ≡ false
    at f true h e e' = cc
    at true false h e e' = e'
    at false false h e e' = refl

module _ (t : ℤ) (nonneg : pos 0 ≤ℤ t) (a b c : Answer) (two : TwoFresh t a b c) where
  abbrev OneOf : Answer → Type 0
  OneOf x = (x ≡ a) ⊎ (x ≡ b) ⊎ (x ≡ c)

  abbrev two_in : SyncEntry
  two_in = absorb b (absorb a new_sync_entry)

  abbrev three_in : SyncEntry
  three_in = absorb c two_in

  two-From : From OneOf t nonneg two_in
  two-From =
      absorb-From OneOf t nonneg b _ (inr (inl refl))
        (absorb-From OneOf t nonneg a _ (inl refl) (inl refl))

  two_reaches : t ≤ℤ two_in.timestamp
  two_reaches = elim two [
    | inl h ↦ absorb_reaches OneOf t nonneg b (absorb a new_sync_entry) h.1
    | inr (inl h) ↦
        absorb_stays OneOf t nonneg b (absorb a new_sync_entry)
          (absorb_reaches OneOf t nonneg a new_sync_entry h.0)
    | inr (inr h) ↦ absorb_reaches OneOf t nonneg b (absorb a new_sync_entry) h.0
  ]

  settled_source : (x : Answer) × OneOf x × IsFresh t x × ((settled_entry a b c).value ≡ x.value)
  settled_source = at a.failed b.failed
    where
      early : (x : Answer) × OneOf x × IsFresh t x × (two_in.value ≡ x.value)
      early = IsFresh-source OneOf t nonneg two_in two-From two_reaches

      late : (x : Answer) × OneOf x × IsFresh t x × (three_in.value ≡ x.value)
      late =
          IsFresh-source OneOf t nonneg three_in
            (absorb-From OneOf t nonneg c two_in (inr (inr refl)) two-From)
            (absorb_stays OneOf t nonneg c two_in two_reaches)

      at :
          (f g : Bool)
          → (x : Answer) × OneOf x × IsFresh t x × ((settled_by f g a b c).value ≡ x.value)
      at true true = early
      at false false = early
      at true false = late
      at false true = late

  -- If two of the three replicas answer an open read with a value of a timestamp of at least `t`,
  -- which is not negative, then the read succeeds, with a value of a timestamp of at least `t` that
  -- one of them answered, whatever the third says and in whatever order, if the value of the entry
  -- reads after the entry has been erased as it was.
  pub read_sees_write :
      (freed : Text → Text) (n : Node) (id : ℕ)
      → ((value : Text) → freed value ≡ value)
      → lookup id n.driver.entries ≡ some new_sync_entry
      → (x : Answer) × ((x ≡ a) ⊎ (x ≡ b) ⊎ (x ≡ c))
        × IsFresh t x
        × (get_answers freed n id (a ∷ b ∷ c ∷ []) ≡ get_finish (closed n id) id 0 x.value)
  read_sees_write freed n id keeps opened =
      let (x, one, fresh, v) = settled_source in
      (
        x,
        one,
        fresh,
        get_quorum freed n id opened a b c
            ∙ ap (λ f. get_finish (closed n id) id (code f) (freed (settled_entry a b c).value))
                (majority_fresh t a b c two)
            ∙ ap (get_finish (closed n id) id 0) (keeps (settled_entry a b c).value ∙ v),
      )
