-- ===== src/Blocks/Found.antt =====
-- src/data.cpp, the search for a hash in the lines of one file.
use thkvs.Base.{
  ℕ, ◌^◌, ◌<◌, ◌≡◌, refl, sym, ap, ◌∙◌, inl, inr, List, [], ◌∷◌, Bool, true, false, Bool-cases, ltb,
  ◌==◌, if◌then◌else◌, if_true, if_false, Text, decimal, All, length, arith,
}
use thkvs.Base.Int.{ℤ, pos}
use thkvs.State.{Node, KeyValue}
use thkvs.Store.{get_return}
use thkvs.Store.Digits.{toint, toint-decimal, tolonglong-decimal}
use thkvs.Disk.{open_in, skip_space, decimal_ℤ}
use thkvs.Blocks.{Value, lines}
use thkvs.Blocks.Serve.{Words, find_words, signed64, answer}
use thkvs.Blocks.Lines.{Fits, read_words-line}
use thkvs.Blocks.Filled.{copies}

abbrev pub words_of : Value → Words
words_of v = record { key = decimal v.key; value = v.value; time_stamp = decimal_ℤ v.time_stamp }

-- What the loop over the lines of a file finds.
abbrev pub find_in : ℕ → List Value → Words → Bool × Words
find_in hash [] w = (false, w)
find_in hash (v ∷ vs) w =
    let rest = find_in hash vs (words_of v) in if v.key == hash then (true, words_of v) else rest

pub find_words-lines :
    (hash : ℕ) (vs : List Value) (input : Text) (w : Words)
    → All Fits vs
    → skip_space input ≡ skip_space (lines vs)
    → find_words hash (length vs) (open_in input) w ≡ find_in hash vs w
unfolding find_words
find_words-lines hash [] input w fits starts = refl
find_words-lines hash (v ∷ vs) input w fits starts =
    ap (λ p. if toint p.0.key == hash then (true, p.0) else find_words hash (length vs) p.1 p.0)
      (read_words-line v fits.0 input (lines vs) starts w)
    ∙ rw (toint-decimal v.key fits.0.key) (
        ap (λ r. if v.key == hash then (true, words_of v) else r)
          (find_words-lines hash vs (10 ∷ lines vs) (words_of v) fits.1 refl))

pub find_in-none :
    (hash : ℕ) (vs : List Value) (w : Words)
    → copies hash vs ≡ []
    → (w' : Words) × (find_in hash vs w ≡ (false, w'))
find_in-none hash [] w e = (w, refl)
find_in-none hash (v ∷ vs) w e = elim (Bool-cases (v.key == hash)) [
  | inl q ↦ ground arith
  | inr q ↦
      let (w', r) = find_in-none hash vs (words_of v) (sym (if_false _ q) ∙ e) in
      (w', if_false _ q ∙ r)
]

pub find_in-some :
    (hash : ℕ) (vs : List Value) (w : Words) (value : Text) (t : ℤ) (rest : List (Text × ℤ))
    → copies hash vs ≡ (value, t) ∷ rest
    → (key : Text) × (find_in hash vs w
        ≡ (true, record { key = key; value = value; time_stamp = decimal_ℤ t }))
find_in-some hash [] w value t rest e = ground arith
find_in-some hash (v ∷ vs) w value t rest e = elim (Bool-cases (v.key == hash)) [
  | inl q ↦
      let e' : (v.value, v.time_stamp) ∷ copies hash vs ≡ (value, t) ∷ rest =
        sym (if_true _ q) ∙ e in
      (decimal v.key, if_true _ q ∙ cc)
  | inr q ↦
      let (key, r) = find_in-some hash vs (words_of v) value t rest (sym (if_false _ q) ∙ e) in
      (key, if_false _ q ∙ r)
]

-- A timestamp that is not negative is answered as it was written.
pub answer-pos :
    (kv : KeyValue) (key value : Text) (t : ℕ) (n : Node)
    → t < 2 ^ 63
    → answer kv 0 (record { key = key; value = value; time_stamp = decimal_ℤ (pos t) }) n
      ≡ get_return n kv.id kv.ip kv.port 0 value (pos t)
unfolding answer
answer-pos kv key value t n l =
    ap (λ k. get_return n kv.id kv.ip kv.port 0 value (signed64 k)) (tolonglong-decimal t l)
    ∙ ap (λ k. get_return n kv.id kv.ip kv.port 0 value k)
        (if_true {b = ltb t (2 ^ 63)} _ (ground arith))
