-- ===== src/Driver/ReadQuorum.antt =====
-- src/driver.cpp, `getReturn`: three answers to one read, one after the other.
use thkvs.Base.{
  ℕ, ◌≡◌, refl, ap, ◌∙◌, List, [], ◌∷◌, Bool, true, false, not, some, lookup, if◌then◌else◌, Text,
}
use thkvs.Driver.{get_finish, count_answer, is_settled}
use thkvs.Driver.Entries.{
  code, majority, pending, closed, lookup-pending, lookup-closed, pending_twice, closed-pending,
}
use thkvs.Driver.Reads.{
  Answer, absorb, get_answer, get_answer_absent, get_answer_open, get_answer_settles, SameCounts,
  is_settled-SameCounts, absorb-SameCounts,
}
use thkvs.State.{Node, SyncEntry, read_r, new_sync_entry}

unfoldable pub get_answers : (Text → Text) → Node → ℕ → List Answer → Node
unfolding get_answer
get_answers freed n id [] = n
get_answers freed n id (a ∷ rest) = get_answers freed (get_answer freed n id a) id rest

abbrev pub after_a : Answer → SyncEntry
after_a a = absorb a new_sync_entry

abbrev pub after_b : Answer → Answer → SyncEntry
after_b a b = absorb b (after_a a)

-- The entry when it is settled: by the first two answers if they are alike, else by the third.
abbrev pub settled_by : Bool → Bool → Answer → Answer → Answer → SyncEntry
settled_by true true a b c = after_b a b
settled_by false false a b c = after_b a b
settled_by _ _ a b c = absorb c (after_b a b)

abbrev pub settled_entry : Answer → Answer → Answer → SyncEntry
settled_entry a b c = settled_by a.failed b.failed a b c

counts_a : (a : Answer) → SameCounts (after_a a) (count_answer (code a.failed) new_sync_entry)
counts_a a = absorb-SameCounts a new_sync_entry new_sync_entry (refl, refl)

counts_b :
    (a b : Answer)
    → SameCounts
        (after_b a b)
        (count_answer (code b.failed) (count_answer (code a.failed) new_sync_entry))
counts_b a b = absorb-SameCounts b (after_a a) _ (counts_a a)

-- The tests, at each of the statuses.
open_after_a : (a : Answer) (f : Bool) → a.failed ≡ f → is_settled read_r (after_a a) ≡ false
open_after_a a f e = is_settled-SameCounts _ _ (counts_a a) ∙ at f e
  where
    at :
        (f : Bool)
        → a.failed ≡ f
        → is_settled read_r (count_answer (code a.failed) new_sync_entry) ≡ false
    at true e = rw e (unfold is_settled count_answer in refl)
    at false e = rw e (unfold is_settled count_answer in refl)

settled_after_b :
    (a b : Answer) (f g : Bool)
    → a.failed ≡ f
    → b.failed ≡ g
    → is_settled read_r (after_b a b) ≡ (if f then g else not g)
settled_after_b a b f g e e' = is_settled-SameCounts _ _ (counts_b a b) ∙ at f g e e'
  where
    at :
        (f g : Bool)
        → a.failed ≡ f
        → b.failed ≡ g
        → is_settled read_r
            (count_answer (code b.failed) (count_answer (code a.failed) new_sync_entry))
          ≡ (if f then g else not g)
    at true true e e' = rw (e, e') (unfold is_settled count_answer in refl)
    at true false e e' = rw (e, e') (unfold is_settled count_answer in refl)
    at false true e e' = rw (e, e') (unfold is_settled count_answer in refl)
    at false false e e' = rw (e, e') (unfold is_settled count_answer in refl)

settled_after_c :
    (a b c : Answer) (f h : Bool)
    → a.failed ≡ f
    → b.failed ≡ not f
    → c.failed ≡ h
    → is_settled read_r (absorb c (after_b a b)) ≡ true
settled_after_c a b c f h e e' e'' =
    is_settled-SameCounts _ _ (absorb-SameCounts c (after_b a b) _ (counts_b a b)) ∙ at f h e e' e''
  where
    at :
        (f h : Bool)
        → a.failed ≡ f
        → b.failed ≡ not f
        → c.failed ≡ h
        → is_settled read_r (
            count_answer
              (code c.failed)
              (count_answer (code b.failed) (count_answer (code a.failed) new_sync_entry)))
          ≡ true
    at true true e e' e'' = rw (e, e', e'') (unfold is_settled count_answer in refl)
    at true false e e' e'' = rw (e, e', e'') (unfold is_settled count_answer in refl)
    at false true e e' e'' = rw (e, e', e'') (unfold is_settled count_answer in refl)
    at false false e e' e'' = rw (e, e', e'') (unfold is_settled count_answer in refl)

lookup-get_finish :
    (n : Node) (i j status : ℕ) (v : Text)
    → lookup i (get_finish n j status v).driver.entries ≡ lookup i n.driver.entries
unfolding get_finish
lookup-get_finish n i j status v = refl

module _ (freed : Text → Text) (n : Node) (id : ℕ)
    (opened : lookup id n.driver.entries ≡ some new_sync_entry) where
  settle :
      (e : SyncEntry) (x : Answer)
      → is_settled read_r (absorb x e) ≡ true
      → get_answer freed (pending n id e) id x
        ≡ get_finish (closed n id) id (code x.failed) (freed (absorb x e).value)
  settle e x s =
      get_answer_settles freed (pending n id e) id x e (lookup-pending n id new_sync_entry e opened)
        s
      ∙ ap (λ m. get_finish m id (code x.failed) (freed (absorb x e).value)) (closed-pending n id e)

  after_one : (a : Answer) → get_answer freed n id a ≡ pending n id (after_a a)
  after_one a = get_answer_open freed n id a new_sync_entry opened (open_after_a a a.failed refl)

  alike :
      (a b c : Answer) (f : Bool)
      → a.failed ≡ f
      → b.failed ≡ f
      → get_answers freed n id (a ∷ b ∷ c ∷ [])
        ≡ get_finish (closed n id) id (code f) (freed (after_b a b).value)
  unfolding get_answers
  alike a b c f e e' =
      let s : is_settled read_r (after_b a b) ≡ true = settled_after_b a b f f e e' ∙ twice f in
      let m = get_finish (closed n id) id (code b.failed) (freed (after_b a b).value) in
      ap (λ k. get_answer freed (get_answer freed k id b) id c) (after_one a)
      ∙ ap (λ k. get_answer freed k id c) (settle (after_a a) b s)
      ∙ get_answer_absent freed m id c (
          lookup-get_finish (closed n id) id id (code b.failed) (freed (after_b a b).value)
          ∙ lookup-closed n id)
      ∙ ap (λ g. get_finish (closed n id) id (code g) (freed (after_b a b).value)) e'
    where
      twice : (f : Bool) → (if f then f else not f) ≡ true
      twice true = refl
      twice false = refl

  unlike :
      (a b c : Answer) (f : Bool)
      → a.failed ≡ f
      → b.failed ≡ not f
      → get_answers freed n id (a ∷ b ∷ c ∷ [])
        ≡ get_finish (closed n id) id (code c.failed) (freed (absorb c (after_b a b)).value)
  unfolding get_answers
  unlike a b c f e e' =
      let s : is_settled read_r (after_b a b) ≡ false =
        settled_after_b a b f (not f) e e' ∙ never f in
      ap (λ k. get_answer freed (get_answer freed k id b) id c) (after_one a)
      ∙ ap (λ k. get_answer freed k id c)
          (get_answer_open freed (pending n id (after_a a)) id b (after_a a)
              (lookup-pending n id new_sync_entry (after_a a) opened) s
            ∙ pending_twice n id (after_a a) (after_b a b))
      ∙ settle (after_b a b) c (settled_after_c a b c f c.failed e e' refl)
    where
      never : (f : Bool) → (if f then not f else not (not f)) ≡ false
      never true = refl
      never false = refl

  -- Three answers to an open read, in any order, close its entry and make one result. Its status is
  -- that of the majority, and its value what the value of the entry reads as when the entry has been
  -- erased, where it was settled: after two answers if they are alike, else after three.
  pub get_quorum :
      (a b c : Answer)
      → get_answers freed n id (a ∷ b ∷ c ∷ [])
        ≡ get_finish
            (closed n id)
            id
            (code (majority a.failed b.failed c.failed))
            (freed (settled_entry a b c).value)
  get_quorum a b c = at a.failed b.failed refl refl
    where
      at :
          (f g : Bool)
          → a.failed ≡ f
          → b.failed ≡ g
          → get_answers freed n id (a ∷ b ∷ c ∷ [])
            ≡ get_finish
                (closed n id)
                id
                (code (majority f g c.failed))
                (freed (settled_by f g a b c).value)
      at true true e e' = alike a b c true e e'
      at false false e e' = alike a b c false e e'
      at true false e e' = unlike a b c true e e'
      at false true e e' = unlike a b c false e e'
