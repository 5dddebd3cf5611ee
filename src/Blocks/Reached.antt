-- ===== src/Blocks/Reached.antt =====
-- src/data.cpp, that every hash lies in the range of a block in every state that the loop of `run`
-- reaches.
use mathlib.Core.Path.{subst}
use thkvs.Base.{
  ℕ, ◌^◌, ◌<◌, ◌≡◌, refl, ◌∙◌, List, [], ◌∷◌, Bool, true, false, Option, none, some, ◌==◌,
  if◌then◌else◌, Text, >>=-eq-some, bool_cases, option_cases, take, length, arith,
}
use thkvs.Base.Int.{ℤ}
use thkvs.Crc.{get_crc}
use thkvs.Queue.{pop}
use thkvs.State.{Node, KeyValue}
use thkvs.Store.Digits.{toint}
use thkvs.Store.{at, recv_move_data_return}
use thkvs.Disk.{Files, open_in, write_file}
use thkvs.Blocks.{
  Value, Hashlist, Blocks, block_name, declare, lines, read_values, sort_first, start_run,
}
use thkvs.Blocks.Serve.{blocks_of, put_blocks, take_blocks, take_in_all, overlaps}
use thkvs.Blocks.Loop.{
  Unset, mark, unmarked, after_removal, remove_blocks, finish_move, serve, turn_once, Turns, begun,
  turned,
}
use thkvs.Blocks.Covered.{covered, put_blocks-Inside, take_blocks-Inside, blocks_of-covered}

-- Every hash lies in the range of a block.
abbrev pub IsCovered : Blocks → Type 0
IsCovered s = (h : ℕ) → h < 2 ^ 32 → covered h s.hl ≡ true

-- So it does in what a step returns, if it returns.
abbrev Leaves : Option (Bool × Blocks × Node) → Type 0
Leaves none = Unit
Leaves (some r) = IsCovered r.1

Leaves-if :
    (c : Bool) (x y : Option (Bool × Blocks × Node))
    → Leaves x
    → Leaves y
    → Leaves (if c then x else y)
Leaves-if true x y p q = p
Leaves-if false x y p q = q

take_in_all-Leaves :
    (kv : KeyValue) (t : ℤ) (keys values : List Text) (s : Blocks) (tmp : List Value) (n : Node)
    → IsCovered s
    → Leaves (take_in_all kv t keys values s tmp n)
unfolding take_in_all
take_in_all-Leaves kv t [] values s tmp n c = c
take_in_all-Leaves kv t (key ∷ keys) [] s tmp n c = tt
take_in_all-Leaves kv t (key ∷ keys) (value ∷ values) s tmp n c =
    let p = take_blocks kv (toint key) value t s.hl s.files tmp n in
    let c' : IsCovered (blocks_of p) = λ h l.
      blocks_of-covered h p
        (take_blocks-Inside h kv (toint key) value t s.hl s.files tmp n (c h l)) in
    bool_cases Leaves p.err _ _
      (λ _. take_in_all-Leaves kv t keys values (blocks_of p) p.tmp p.node c') (λ _. c')

remove_blocks-covered :
    (h begin end : ℕ) (bs : List Hashlist) (files : Files) (tmp : List Value)
    → covered h (remove_blocks begin end bs files tmp).0 ≡ covered h bs
unfolding remove_blocks
remove_blocks-covered h begin end [] files tmp = refl
remove_blocks-covered h begin end (b ∷ bs) files tmp =
    bool_cases Same (overlaps b begin end) _ _
      (λ _.
        behind b (remove_blocks begin end bs files tmp) refl
          (remove_blocks-covered h begin end bs files tmp))
      (λ _. option_cases Same (files (block_name b)) _ _ refl (λ bytes.
        let read = sort_first b.cnt (read_values (mark begin end) b.cnt (open_in bytes) tmp) in
        let kept = unmarked (take b.cnt read) in
        let files' = write_file (block_name b) (lines kept) files in
        behind (record b { cnt = length kept }) (remove_blocks begin end bs files' read) refl
          (remove_blocks-covered h begin end bs files' read)))
  where
    Same : List Hashlist × Files → Type 0
    Same r = covered h r.0 ≡ covered h (b ∷ bs)

    behind :
        (b' : Hashlist) (r : List Hashlist × Files)
        → covered h (b' ∷ []) ≡ covered h (b ∷ [])
        → covered h r.0 ≡ covered h bs
        → covered h (after_removal b' r).0 ≡ covered h (b ∷ bs)
    behind b' r e f = ground arith

finish_move-IsCovered :
    (u : Unset) (kv : KeyValue) (s : Blocks) (n : Node)
    → IsCovered s
    → IsCovered (finish_move u kv s n).0
unfolding finish_move
finish_move-IsCovered u kv s n c = finished (at false kv.id n.store.mre) _ _
  where
    removed : List Hashlist × Files
    removed =
        remove_blocks (at 0 kv.id n.store.mbe) (at 0 kv.id n.store.men) s.hl s.files (declare u.tmp)

    finished :
        (b : Bool) (x y : Node)
        → let r : Blocks × Node =
            if b then (record { hl = removed.0; files = removed.1 }, x) else (s, y) in
          IsCovered r.0
    finished true x y h l =
        remove_blocks-covered h (at 0 kv.id n.store.mbe) (at 0 kv.id n.store.men) s.hl s.files
          (declare u.tmp)
        ∙ c h l
    finished false x y h l = c h l

serve-Leaves :
    (u : Unset) (now : ℤ) (kv : KeyValue) (s : Blocks) (n : Node)
    → IsCovered s
    → Leaves (serve u now kv s n)
unfolding serve
serve-Leaves u now kv s n c =
    let p = put_blocks kv (get_crc kv.key) now s.hl s.files (declare u.tmp) n in
    let all = take_in_all kv u.time_stamp kv.key_vec kv.value_vec s (declare u.tmp) n in
    Leaves-if (kv.op == 5) _ _ (finish_move-IsCovered u kv s n c) (
      Leaves-if (kv.op == 1) _ _
        (λ h l.
          blocks_of-covered h p
            (put_blocks-Inside h kv (get_crc kv.key) now s.hl s.files (declare u.tmp) n (c h l)))
        (Leaves-if (kv.op == 2) _ _ c (
          Leaves-if (kv.op == 3) _ _ c (
            Leaves-if (kv.op == 4) _ _
              (taken all
                (take_in_all-Leaves kv u.time_stamp kv.key_vec kv.value_vec s (declare u.tmp) n c))
              c))))
  where
    taken :
        (o : Option (Bool × Blocks × Node))
        → Leaves o
        → Leaves (elim o as (λ x. Option (Bool × Blocks × Node)) [
          | none ↦ none
          | some (err, s', n') ↦ some (
              if err
              then (false, s', n')
              else (true, s', recv_move_data_return n' kv.id kv.ip kv.port 0))
        ])
    taken none c = tt
    taken (some (true, s', n')) c = c
    taken (some (false, s', n')) c = c

start_run-IsCovered : (files : Files) → IsCovered (start_run files)
unfolding start_run
start_run-IsCovered files h l = ground arith

turn_once-IsCovered :
    (u : Unset) (now : ℤ) (s s' : Blocks) (n n' : Node)
    → turn_once u now s n ≡ some (true, s', n')
    → IsCovered s
    → IsCovered s'
unfolding turn_once
turn_once-IsCovered u now s s' n n' e c =
    let ((kv, rest), _, r) = >>=-eq-some (pop n.store.que) go e in
    subst Leaves r
      (serve-Leaves u now kv s (record n { store = record (n.store) { que = rest } }) c)
  where
    go : KeyValue × List KeyValue → Option (Bool × Blocks × Node)
    go (kv, rest) = serve u now kv s (record n { store = record (n.store) { que = rest } })

-- Whatever requests the loop has served, whatever the files and the variables that are not set hold,
-- every hash lies in the range of a block.
pub Turns-IsCovered :
    (files : Files) (n n' : Node) (s' : Blocks) → Turns (start_run files) n s' n' → IsCovered s'
Turns-IsCovered files n n' s' t = later (start_run files) n t (start_run-IsCovered files)
  where
    later : (s : Blocks) (n : Node) → Turns s n s' n' → IsCovered s → IsCovered s'
    later s n begun c = c
    later s n (turned u now e t) c = later _ _ t (turn_once-IsCovered u now s _ n _ e c)
