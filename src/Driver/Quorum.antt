-- ===== src/Driver/Quorum.antt =====
-- src/driver.cpp, `putReturn`: three answers to one write, one after the other.
use thkvs.Base.{ℕ, ◌≡◌, refl, ap, ◌∙◌, List, [], ◌∷◌, Bool, true, false, none, some, lookup}
use thkvs.Driver.{put_return, put_finish, count_answer, is_settled}
use thkvs.Driver.Entries.{
  code, majority, pending, closed, lookup-pending, lookup-closed, pending_twice, closed-pending,
}
use thkvs.State.{Node, SyncEntry, write_w, new_sync_entry}

module _ (n : Node) (id : ℕ) where
  put_return_absent : (status : ℕ) → lookup id n.driver.entries ≡ none → put_return n id status ≡ n
  unfolding put_return
  put_return_absent status h = rw (h, put_return)

  put_return_open :
      (e : SyncEntry) (status : ℕ)
      → lookup id n.driver.entries ≡ some e
      → is_settled write_w (count_answer status e) ≡ false
      → put_return n id status ≡ pending n id (count_answer status e)
  unfolding put_return
  put_return_open e status h s = rw (h, put_return, s)

  put_return_settles :
      (e : SyncEntry) (failed : Bool)
      → lookup id n.driver.entries ≡ some e
      → is_settled write_w (count_answer (code failed) e) ≡ true
      → put_return n id (code failed) ≡ put_finish (closed n id) id (code failed)
  unfolding put_return
  put_return_settles e true h s = rw (h, put_return, s)
  put_return_settles e false h s = rw (h, put_return, s)

unfoldable pub put_answers : Node → ℕ → List Bool → Node
put_answers n id [] = n
put_answers n id (failed ∷ rest) = put_answers (put_return n id (code failed)) id rest

lookup-put_finish :
    (n : Node) (i j status : ℕ)
    → lookup i (put_finish n j status).driver.entries ≡ lookup i n.driver.entries
unfolding put_finish
lookup-put_finish n i j status = refl

late :
    (n : Node) (id : ℕ) (a c : Bool)
    → put_return (put_finish (closed n id) id (code a)) id (code c)
      ≡ put_finish (closed n id) id (code a)
late n id a c =
    put_return_absent (put_finish (closed n id) id (code a)) id (code c)
      (lookup-put_finish (closed n id) id id (code a) ∙ lookup-closed n id)

first_answer : Bool → SyncEntry
first_answer a = count_answer (code a) new_sync_entry

module _ (n : Node) (id : ℕ) (opened : lookup id n.driver.entries ≡ some new_sync_entry) where
  after_one : (a : Bool) → put_return n id (code a) ≡ pending n id (first_answer a)
  unfolding first_answer is_settled count_answer
  after_one true = put_return_open n id new_sync_entry 1 opened refl
  after_one false = put_return_open n id new_sync_entry 0 opened refl

  after_two_same :
      (a : Bool)
      → put_return (pending n id (first_answer a)) id (code a)
        ≡ put_finish (closed n id) id (code a)
  unfolding first_answer is_settled count_answer
  after_two_same true =
      put_return_settles (pending n id (count_answer 1 new_sync_entry)) id
        (count_answer 1 new_sync_entry) true (lookup-pending n id new_sync_entry _ opened) refl
      ∙ ap (λ m. put_finish m id 1) (closed-pending n id (count_answer 1 new_sync_entry))
  after_two_same false =
      put_return_settles (pending n id (count_answer 0 new_sync_entry)) id
        (count_answer 0 new_sync_entry) false (lookup-pending n id new_sync_entry _ opened) refl
      ∙ ap (λ m. put_finish m id 0) (closed-pending n id (count_answer 0 new_sync_entry))

  after_three :
      (e : SyncEntry) (c : Bool)
      → is_settled write_w (count_answer (code c) e) ≡ true
      → put_return (pending n id e) id (code c) ≡ put_finish (closed n id) id (code c)
  after_three e c s =
      put_return_settles (pending n id e) id e c (lookup-pending n id new_sync_entry e opened) s
      ∙ ap (λ m. put_finish m id (code c)) (closed-pending n id e)

  split :
      (a b c : Bool)
      → is_settled write_w (count_answer (code b) (first_answer a)) ≡ false
      → is_settled write_w (count_answer (code c) (count_answer (code b) (first_answer a))) ≡ true
      → put_answers n id (a ∷ b ∷ c ∷ []) ≡ put_finish (closed n id) id (code c)
  unfolding put_answers
  split a b c s t =
      let e = first_answer a in
      let e' = count_answer (code b) e in
      ap (λ m. put_return (put_return m id (code b)) id (code c)) (after_one a)
      ∙ ap (λ m. put_return m id (code c))
          (put_return_open (pending n id e) id e (code b)
              (lookup-pending n id new_sync_entry e opened) s
            ∙ pending_twice n id e e')
      ∙ after_three e' c t

  same : (a c : Bool) → put_answers n id (a ∷ a ∷ c ∷ []) ≡ put_finish (closed n id) id (code a)
  unfolding put_answers
  same a c =
      ap (λ m. put_return (put_return m id (code a)) id (code c)) (after_one a)
      ∙ ap (λ m. put_return m id (code c)) (after_two_same a)
      ∙ late n id a c

  -- Three answers to an open write, in any order, close its entry and make one result, with the
  -- status of the majority.
  pub put_quorum :
      (a b c : Bool)
      → put_answers n id (a ∷ b ∷ c ∷ []) ≡ put_finish (closed n id) id (code (majority a b c))
  unfolding first_answer is_settled count_answer
  put_quorum true true c = same true c
  put_quorum false false c = same false c
  put_quorum true false true = split true false true refl refl
  put_quorum true false false = split true false false refl refl
  put_quorum false true true = split false true true refl refl
  put_quorum false true false = split false true false refl refl
