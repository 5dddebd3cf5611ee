-- ===== src/Store/Moves.antt =====
-- src/data.cpp, `getMoveData`: the ranges that are read, and the range that is kept for the deletion.
use thkvs.Base.{
  ℕ, ◌+◌, ◌<◌, ◌≡◌, ◌≢◌, refl, ◌∙◌, inl, inr, List, [], ◌∷◌, ◌++◌, Bool, ◌||◌, ◌&&◌, some, lookup,
  lookup-put_at, put_at, ltb, leb, if◌then◌else◌, Bool-cases, Text, sub32, arith,
}
use mathlib.Core.List.{append_assoc}
use thkvs.State.{Node, KeyValue}
use thkvs.Store.{get_move_data, get_move_data_true, new_range}

-- `begin <= hash && hash <= end`, the test of the data thread.
abbrev pub in_range : ℕ → ℕ → ℕ → Bool
in_range begin end h = leb begin h && leb h end

-- How many of the requests read a hash.
abbrev pub times_read : ℕ → List KeyValue → ℕ
times_read h [] = 0
times_read h (kv ∷ kvs) = (if in_range kv.begin kv.end h then 1 else 0) + times_read h kvs

-- The arc from `begin` up to `end`, which is left out, round the ring.
abbrev pub in_arc : ℕ → ℕ → ℕ → Bool
in_arc begin end h = if ltb begin end then leb begin h && ltb h end else leb begin h || ltb h end

module _ (n : Node) (id begin end : ℕ) (srcip : Text) (srcport : ℕ) (remotesrcip : Text)
    (remotesrcport : ℕ) (remotedestip : Text) (remotedestport : ℕ) (remove : Bool) where
  abbrev after : Node
  after =
      get_move_data n id begin end srcip srcport remotesrcip remotesrcport remotedestip
        remotedestport remove

  abbrev request : ℕ → ℕ → KeyValue
  request b e =
      new_range id b e srcip srcport remotesrcip remotesrcport remotedestip remotedestport 3

  -- One request in the queue.
  abbrev asked : Node → ℕ → ℕ → Node
  asked m b e =
      get_move_data_true m id b e srcip srcport remotesrcip remotesrcport remotedestip
        remotedestport remove

  at_id : (m : List (ℕ × ℕ)) (v : ℕ) → lookup id (put_at id v m) ≡ some v
  at_id m v = lookup-put_at id id v m ∙ ground arith

  asked-kept :
      (m : Node) (b e : ℕ)
      → (lookup id (asked m b e).store.mbe ≡ some b) × (lookup id (asked m b e).store.men ≡ some e)
  unfolding get_move_data_true
  asked-kept m b e = (at_id m.store.mbe b, at_id m.store.men e)

  -- A request to move the arc from `begin` up to `end`, two different hashes of which `end` is not
  -- 0, puts read requests into the queue that together read each hash of the arc once, round the
  -- ring, and no other.
  pub get_move_data_reads :
      (h : ℕ)
      → begin ≢ end
      → 0 < end
      → end < 0x1_0000_0000
      → h < 0x1_0000_0000
      → (kvs : List KeyValue) × (after.store.que ≡ n.store.que ++ kvs)
        × (times_read h kvs ≡ (if in_arc begin end h then 1 else 0))
  unfolding get_move_data get_move_data_true
  get_move_data_reads h ne pos bound hash = elim (Bool-cases (ltb end begin)) [
    | inl e ↦
        let kvs = request begin 0xffff_ffff ∷ request 0 (sub32 end 1) ∷ [] in
        (
          kvs,
          rw e (
              append_assoc n.store.que (request begin 0xffff_ffff ∷ [])
                (request 0 (sub32 end 1) ∷ [])),
          ground arith,
        )
    | inr e ↦ (request begin (sub32 end 1) ∷ [], rw e refl, ground arith)
  ]

  -- The range that is kept under the request's id, for the deletion, is the arc if it does not pass
  -- the largest hash. If it does, it is only the part of the arc below `end`: the range of the first
  -- of the two requests is overwritten.
  pub get_move_data_kept :
      (h : ℕ)
      → begin ≢ end
      → 0 < end
      → end < 0x1_0000_0000
      → (b : ℕ) × (e : ℕ) × (lookup id after.store.mbe ≡ some b)
        × (lookup id after.store.men ≡ some e)
        × (in_range b e h ≡ (if ltb end begin then ltb h end else in_arc begin end h))
  unfolding get_move_data
  get_move_data_kept h ne pos bound = elim (Bool-cases (ltb end begin)) [
    | inl e ↦
        let k = asked-kept (asked n begin 0xffff_ffff) 0 (sub32 end 1) in
        (0, sub32 end 1, rw e k.0, rw e k.1, ground arith)
    | inr e ↦
        let k = asked-kept n begin (sub32 end 1) in
        (begin, sub32 end 1, rw e k.0, rw e k.1, ground arith)
  ]
