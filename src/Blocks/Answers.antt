-- ===== src/Blocks/Answers.antt =====
-- src/data.cpp, that a put and a get are answered.
use thkvs.Base.{
  ℕ, ◌<◌, ◌≡◌, refl, ap, ◌∙◌, List, [], ◌∷◌, Bool, true, false, ◌||◌, some, ◌==◌, if◌then◌else◌,
  if_true, if_false, bool_cases, option_cases, inl, inr, ◌⊎◌, length, suc, ◌≤◌, arith, Text, All,
}
use thkvs.Base.Int.{ℤ}
use thkvs.Crc.{get_crc}
use thkvs.Crc.Reference.{get_crc-lt}
use thkvs.State.{Node, KeyValue}
use thkvs.Store.{put_return, get_return}
use thkvs.Store.Digits.{tolonglong}
use thkvs.Disk.{Files, open_in}
use thkvs.Blocks.{Value, Hashlist, Blocks, block_name, declare, holds, store_in, start_run}
use thkvs.Blocks.Serve.{
  Pass, stop, go_on, after_split, put_blocks, blocks_of, Words, no_words, find_words, signed64,
  answer, get_blocks, get_all,
}
use thkvs.Blocks.Loop.{Unset, serve, Turns}
use thkvs.Blocks.Kept.{holders}
use thkvs.Blocks.Covered.{covered}
use thkvs.Blocks.Reached.{Turns-IsCovered}

-- Answers to a put, with their statuses, in their order.
abbrev pub put_replies : KeyValue → List ℕ → Node → Node
put_replies kv [] n = n
put_replies kv (status ∷ more) n = put_replies kv more (put_return n kv.id kv.ip kv.port status)

-- Answers to a get: a status, a value and a timestamp each.
abbrev pub get_replies : KeyValue → List (ℕ × Text × ℤ) → Node → Node
get_replies kv [] n = n
get_replies kv ((status, value, time_stamp) ∷ more) n =
    get_replies kv more (get_return n kv.id kv.ip kv.port status value time_stamp)

-- A pass that answers a put, but not more often than a bound, and one that answers it at least once.
abbrev Replies : KeyValue → Node → ℕ → Pass → Type 0
Replies kv n most p =
    (statuses : List ℕ) × (p.node ≡ put_replies kv statuses n) × (length statuses ≤ most)

abbrev Answers : KeyValue → Node → ℕ → Pass → Type 0
Answers kv n most p =
    (status : ℕ) × (more : List ℕ) × (p.node ≡ put_replies kv (status ∷ more) n)
    × (suc (length more) ≤ most)

put_blocks-Replies :
    (kv : KeyValue) (hash : ℕ) (t : ℤ) (bs : List Hashlist) (files : Files) (tmp : List Value)
    (n : Node)
    → Replies kv n (holders hash bs) (put_blocks kv hash t bs files tmp n)
unfolding put_blocks stop go_on after_split
put_blocks-Replies kv hash t [] files tmp n = ([], refl, omega arith)
put_blocks-Replies kv hash t (b ∷ bs) files tmp n =
    bool_cases (Replies kv n (holders hash (b ∷ bs))) (holds b hash) _ _
      (λ e.
        let (statuses, r, l) = put_blocks-Replies kv hash t bs files tmp n in
        let k : holders hash (b ∷ bs) ≡ holders hash bs = if_false _ e in
        (statuses, r, omega arith))
      (λ e.
        let k : holders hash (b ∷ bs) ≡ suc (holders hash bs) = if_true _ e in
        option_cases (Replies kv n (holders hash (b ∷ bs))) (files (block_name b)) _ _
          (1 ∷ [], refl, omega arith)
          (λ bytes.
            let s = store_in hash kv.value t b bytes tmp files in
            option_cases (Replies kv n (holders hash (b ∷ bs))) s.split _ _
              (0 ∷ [], refl, omega arith)
              (λ t'.
                let (statuses, r, l) =
                  put_blocks-Replies kv hash t bs s.files s.tmp
                    (put_return n kv.id kv.ip kv.port 0) in
                (0 ∷ statuses, r, omega arith))))

pub put_blocks-Answers :
    (kv : KeyValue) (hash : ℕ) (t : ℤ) (bs : List Hashlist) (files : Files) (tmp : List Value)
    (n : Node)
    → covered hash bs ≡ true
    → Answers kv n (holders hash bs) (put_blocks kv hash t bs files tmp n)
unfolding put_blocks stop go_on after_split
put_blocks-Answers kv hash t [] files tmp n c = cc
put_blocks-Answers kv hash t (b ∷ bs) files tmp n c =
    bool_cases (Answers kv n (holders hash (b ∷ bs))) (holds b hash) _ _
      (λ e.
        let (status, more, r, l) =
          put_blocks-Answers kv hash t bs files tmp n (rest (holds b hash) (covered hash bs) e c) in
        let k : holders hash (b ∷ bs) ≡ holders hash bs = if_false _ e in
        (status, more, r, omega arith))
      (λ e.
        let k : holders hash (b ∷ bs) ≡ suc (holders hash bs) = if_true _ e in
        option_cases (Answers kv n (holders hash (b ∷ bs))) (files (block_name b)) _ _
          (1, [], refl, omega arith)
          (λ bytes.
            let s = store_in hash kv.value t b bytes tmp files in
            option_cases (Answers kv n (holders hash (b ∷ bs))) s.split _ _
              (0, [], refl, omega arith)
              (λ t'.
                let (statuses, r, l) =
                  put_blocks-Replies kv hash t bs s.files s.tmp
                    (put_return n kv.id kv.ip kv.port 0) in
                (0, statuses, r, omega arith))))
  where
    rest : (b c : Bool) → b ≡ false → (b || c) ≡ true → c ≡ true
    rest false c e h = h
    rest true c e h = cc

abbrev some_in : List (ℕ × Text × ℤ) → Bool
some_in [] = false
some_in (a ∷ more) = true

or_true : (b : Bool) → true ≡ (b || true)
or_true true = refl
or_true false = refl

-- A pass that answers a get any number of times; its flag says whether it did, or was set before.
abbrev Flagged : KeyValue → Bool → Node → Bool × Words × Node → Type 0
Flagged kv flag n r =
    (answers : List (ℕ × Text × ℤ)) × (r.2 ≡ get_replies kv answers n)
    × (r.0 ≡ (flag || some_in answers))

get_blocks-Flagged :
    (kv : KeyValue) (hash : ℕ) (bs : List Hashlist) (files : Files) (w : Words) (flag : Bool)
    (n : Node)
    → Flagged kv flag n (get_blocks kv hash bs files w flag n)
unfolding get_blocks answer
get_blocks-Flagged kv hash [] files w flag n = ([], refl, ground arith)
get_blocks-Flagged kv hash (b ∷ bs) files w flag n =
    bool_cases (Flagged kv flag n) (holds b hash) _ _
      (λ _. get_blocks-Flagged kv hash bs files w flag n)
      (λ _.
        option_cases (Flagged kv flag n) (files (block_name b)) _ _
          ((1, w.value, signed64 (tolonglong w.time_stamp)) ∷ [], refl, or_true flag)
          (λ bytes.
            let (found, w') = find_words hash b.cnt (open_in bytes) w in
            bool_cases (Flagged kv flag n) found _ _
              (λ _. get_blocks-Flagged kv hash bs files w' flag n)
              (λ _.
                let a : ℕ × Text × ℤ = (0, w'.value, signed64 (tolonglong w'.time_stamp)) in
                let (answers, e, f) =
                  get_blocks-Flagged kv hash bs files w' true (answer kv 0 w' n) in
                (a ∷ answers, e, f ∙ or_true flag))))

get_all-answers :
    (kv : KeyValue) (hash : ℕ) (s : Blocks) (n : Node)
    → (first : ℕ × Text × ℤ) × (more : List (ℕ × Text × ℤ)) × (get_all kv hash s n
        ≡ get_replies kv (first ∷ more) n)
unfolding get_all answer
get_all-answers kv hash s n =
    let (flag, w, n') = get_blocks kv hash s.hl s.files no_words false n in
    let (answers, e, f) = get_blocks-Flagged kv hash s.hl s.files no_words false n in
    end flag w n' answers e f
  where
    end :
        (flag : Bool) (w : Words) (n' : Node) (answers : List (ℕ × Text × ℤ))
        → n' ≡ get_replies kv answers n
        → flag ≡ some_in answers
        → (first : ℕ × Text × ℤ) × (more : List (ℕ × Text × ℤ)) × ((if flag
              then n'
              else answer kv 1 w n')
            ≡ get_replies kv (first ∷ more) n)
    end true w n' [] e f = cc
    end true w n' (a ∷ answers) e f = (a, answers, e)
    end false w n' [] e f =
        ((1, w.value, signed64 (tolonglong w.time_stamp)), [], ap (answer kv 1 w) e)
    end false w n' (a ∷ answers) e f = cc

-- A put that has been answered, once at least, and a get.
pub data Replied (kv : KeyValue) (n : Node) : Node → Type 0 where
  put_replied : (status : ℕ) (more : List ℕ) → Replied kv n (put_replies kv (status ∷ more) n)
  get_replied :
      (first : ℕ × Text × ℤ) (more : List (ℕ × Text × ℤ))
      → Replied kv n (get_replies kv (first ∷ more) n)

-- In every state that the loop reaches from its start, whatever requests it has served and whatever
-- the files and the variables that are not set hold, a put or a get of a key of bytes is served, the
-- loop goes on, and one answer at least is sent.
pub serve-Replied :
    (files : Files) (n0 n : Node) (s : Blocks) (u : Unset) (now : ℤ) (kv : KeyValue)
    → Turns (start_run files) n0 s n
    → All (λ b. b < 256) kv.key
    → (kv.op ≡ 1) ⊎ (kv.op ≡ 2)
    → (s' : Blocks) × (n' : Node) × (serve u now kv s n ≡ some (true, s', n')) × Replied kv n n'
unfolding serve
serve-Replied files n0 n s u now kv t bytes (inl op) =
    let p = put_blocks kv (get_crc kv.key) now s.hl s.files (declare u.tmp) n in
    let hashed = Turns-IsCovered files n0 n s t (get_crc kv.key) (get_crc-lt kv.key bytes) in
    let (status, more, e, most) =
      put_blocks-Answers kv (get_crc kv.key) now s.hl s.files (declare u.tmp) n hashed in
    (
      blocks_of p,
      put_replies kv (status ∷ more) n,
      if_false _ (ap (λ k. k == 5) op)
          ∙ if_true _ (ap (λ k. k == 1) op)
          ∙ ap (λ n. some (true, blocks_of p, n)) e,
      Replied.put_replied status more,
    )
serve-Replied files n0 n s u now kv t bytes (inr op) =
    let (first, more, e) = get_all-answers kv (get_crc kv.key) s n in
    (
      s,
      get_replies kv (first ∷ more) n,
      if_false _ (ap (λ k. k == 5) op)
          ∙ if_false _ (ap (λ k. k == 1) op)
          ∙ if_true _ (ap (λ k. k == 2) op)
          ∙ ap (λ n. some (true, s, n)) e,
      Replied.get_replied first more,
    )
