-- ===== src/Driver/Reads.antt =====
-- src/driver.cpp, `getReturn`: one answer to a read, and how it changes the entry.
use thkvs.Base.{
  ℕ, ◌≡◌, refl, ap, ◌∙◌, inl, inr, List, [], ◌∷◌, Bool, true, false, none, some, lookup, Text,
  add32, Bool-cases, bit_xor, ◌==◌,
}
use thkvs.Base.Int.{ℤ, ltb_ℤ}
use thkvs.Driver.{get_return, get_finish, count_answer, take_newer, is_settled, finish_with}
use thkvs.Driver.Entries.{code, pending, closed}
use thkvs.State.{Node, SyncEntry, read_r}

-- What a replica answers to a read.
pub record Answer : Type 0 where
  pub failed : Bool
  pub timestamp : ℤ
  pub value : Text

-- The entry after an answer.
unfoldable pub absorb : Answer → SyncEntry → SyncEntry
unfolding count_answer take_newer
absorb a e = take_newer (code a.failed) a.timestamp a.value (count_answer (code a.failed) e)

unfoldable pub get_answer : (Text → Text) → Node → ℕ → Answer → Node
get_answer freed n id a = get_return freed n id (code a.failed) a.timestamp a.value

finish_code :
    (m : Node) (id : ℕ) (v : Text) (b : Bool)
    → finish_with (code b) (λ s. get_finish m id s v) m ≡ get_finish m id (code b) v
finish_code m id v true = refl
finish_code m id v false = refl

module _ (freed : Text → Text) (n : Node) (id : ℕ) (a : Answer) where
  pub get_answer_absent : lookup id n.driver.entries ≡ none → get_answer freed n id a ≡ n
  unfolding get_answer get_return
  get_answer_absent h = rw (h, get_return)

  pub get_answer_open :
      (e : SyncEntry)
      → lookup id n.driver.entries ≡ some e
      → is_settled read_r (absorb a e) ≡ false
      → get_answer freed n id a ≡ pending n id (absorb a e)
  unfolding get_answer get_return absorb
  get_answer_open e h s = rw (h, get_return, s)

  pub get_answer_settles :
      (e : SyncEntry)
      → lookup id n.driver.entries ≡ some e
      → is_settled read_r (absorb a e) ≡ true
      → get_answer freed n id a
        ≡ get_finish (closed n id) id (code a.failed) (freed (absorb a e).value)
  unfolding get_answer get_return absorb
  get_answer_settles e h s =
      rw (h, get_return, s) (finish_code (closed n id) id (freed (absorb a e).value) a.failed)

absorb-tot : (a : Answer) (e : SyncEntry) → (absorb a e).tot ≡ add32 e.tot 1
unfolding absorb
absorb-tot a e = elim (Bool-cases (code a.failed == 0)) [
  | inr f ↦ rw (f, take_newer)
  | inl t ↦ elim (Bool-cases (ltb_ℤ e.timestamp a.timestamp)) [
    | inl l ↦ rw (t, take_newer, l)
    | inr l ↦ rw (t, take_newer, l)
  ]
]

absorb-suc :
    (a : Answer) (e : SyncEntry) → (absorb a e).suc ≡ add32 e.suc (bit_xor (code a.failed) 1)
unfolding absorb
absorb-suc a e = elim (Bool-cases (code a.failed == 0)) [
  | inr f ↦ rw (f, take_newer)
  | inl t ↦ elim (Bool-cases (ltb_ℤ e.timestamp a.timestamp)) [
    | inl l ↦ rw (t, take_newer, l)
    | inr l ↦ rw (t, take_newer, l)
  ]
]

-- Whether the entry is settled depends on the statuses alone.
counted : List Bool → SyncEntry → SyncEntry
unfolding count_answer
counted [] e = e
counted (failed ∷ rest) e = counted rest (count_answer (code failed) e)

abbrev pub SameCounts : SyncEntry → SyncEntry → Type 0
SameCounts e e' = (e.tot ≡ e'.tot) × (e.suc ≡ e'.suc)

pub is_settled-SameCounts :
    (e e' : SyncEntry) → SameCounts e e' → is_settled read_r e ≡ is_settled read_r e'
unfolding is_settled
is_settled-SameCounts e e' (t, s) = rw (t, s)

pub absorb-SameCounts :
    (a : Answer) (e e' : SyncEntry)
    → SameCounts e e'
    → SameCounts (absorb a e) (count_answer (code a.failed) e')
unfolding count_answer
absorb-SameCounts a e e' (t, s) = (
  absorb-tot a e ∙ ap (λ x. add32 x 1) t,
  absorb-suc a e ∙ ap (λ x. add32 x (bit_xor (code a.failed) 1)) s,
)
