-- ===== src/Tree/Nodes.antt =====
-- src/btree.cpp, nodes that are written to the file and read from it.
use thkvs.Base.{
  ℕ, ◌+◌, ◌*◌, ◌^◌, ◌≤◌, ◌<◌, false, ◌≡◌, refl, ap, ◌∙◌, inl, List, [], ◌∷◌, some, All, length,
  take, get_elem?, ◌>>=◌, arith,
}
use thkvs.Tree.{
  Node, Buffer, Btree, get_int, get_ints, write_at, read_at, seek_write, hdoff, node_size,
  node_buffer, dump_node, load_node,
}
use thkvs.Tree.Buffers.{
  Agree, get_int-Agree, get_ints-Agree, get_int-put_int, get_int-put_int_other, get_int-put_ints,
  get_ints-put_ints, put_ints-other, read_at-write_at, seek_write-write_at, seek_read-read_at,
}

-- A node that can be written: at most four keys and four children, a child for each key, and numbers of
-- 32 bits.
pub record IsSmall (node : Node) : Type 0 where
  pub prev : node.prev < 2 ^ 32
  pub succ : node.succ < 2 ^ 32
  pub keys : length node.keys ≤ 4
  pub childs : length node.childs ≤ 4
  pub children : length node.keys ≤ length node.childs
  pub all_keys : All (λ k. k < 2 ^ 32) node.keys
  pub all_childs : All (λ k. k < 2 ^ 32) node.childs

module _ (id : ℕ) (node : Node) (small : IsSmall node) (l : id < 2 ^ 32) where
  buffer_id : get_int 4 (node_buffer id node) ≡ id
  unfolding node_buffer
  buffer_id =
      get_int-put_ints 4 48 node.childs _ (omega arith)
      ∙ get_int-put_ints 4 32 node.keys _ (omega arith)
      ∙ get_int-put_int_other 4 16 (length node.keys) _ (inl (omega arith))
      ∙ get_int-put_int_other 4 12 node.succ _ (inl (omega arith))
      ∙ get_int-put_int_other 4 8 node.prev _ (inl (omega arith))
      ∙ get_int-put_int 4 id _ l

  buffer_prev : get_int 8 (node_buffer id node) ≡ node.prev
  unfolding node_buffer
  buffer_prev =
      get_int-put_ints 8 48 node.childs _ (omega arith)
      ∙ get_int-put_ints 8 32 node.keys _ (omega arith)
      ∙ get_int-put_int_other 8 16 (length node.keys) _ (inl (omega arith))
      ∙ get_int-put_int_other 8 12 node.succ _ (inl (omega arith))
      ∙ get_int-put_int 8 node.prev _ small.prev

  buffer_succ : get_int 12 (node_buffer id node) ≡ node.succ
  unfolding node_buffer
  buffer_succ =
      get_int-put_ints 12 48 node.childs _ (omega arith)
      ∙ get_int-put_ints 12 32 node.keys _ (omega arith)
      ∙ get_int-put_int_other 12 16 (length node.keys) _ (inl (omega arith))
      ∙ get_int-put_int 12 node.succ _ small.succ

  buffer_size : get_int 16 (node_buffer id node) ≡ length node.keys
  unfolding node_buffer
  buffer_size =
      get_int-put_ints 16 48 node.childs _ (omega arith)
      ∙ get_int-put_ints 16 32 node.keys _ (omega arith)
      ∙ get_int-put_int 16 (length node.keys) _ (omega (arith, small.keys))

  buffer_keys :
      get_ints (length node.keys) 32 (node_buffer id node) ≡ take (length node.keys) node.keys
  unfolding node_buffer
  buffer_keys =
      get_ints-Agree (length node.keys) 32 (node_buffer id node) _
        (λ i a b. put_ints-other 48 i node.childs _ (inl (omega (arith, small.keys))))
      ∙ get_ints-put_ints (length node.keys) 32 node.keys _ small.all_keys (omega arith)

  buffer_childs :
      get_ints (length node.keys) 48 (node_buffer id node) ≡ take (length node.keys) node.childs
  unfolding node_buffer
  buffer_childs =
      get_ints-put_ints (length node.keys) 48 node.childs _ small.all_childs small.children

take-all : (xs : List ℕ) → take (length xs) xs ≡ xs
take-all [] = refl
take-all (x ∷ xs) = ap (λ ys. x ∷ ys) (take-all xs)

-- A node of at most four keys and four children, a child for each key, in numbers of 32 bits,
-- that is dumped is loaded from its place with its id, its neighbours and its keys, and with as
-- many of its children as it has keys, and the stream has not failed behind it, if it has not failed
-- before, and the place is below 2 ^ 31.
pub load_node-dump_node :
    (id : ℕ) (node unset : Node) (t : Btree) (old : Buffer)
    → IsSmall node
    → id < 2 ^ 32
    → get_elem? t.node_list id ≡ some node
    → t.file.failed ≡ false
    → hdoff node.page node.off < 0x8000_0000
    → (t' : Btree) × (dump_node id t ≡ some t')
      × ((load_node unset old node.page node.off t'.file).0 ≡ record unset {
        id = id;
        prev = node.prev;
        succ = node.succ;
        keys = node.keys;
        childs = take (length node.keys) node.childs;
      })
      × ((load_node unset old node.page node.off t'.file).1.failed ≡ false)
unfolding dump_node load_node
load_node-dump_node id node unset t old small l e good place =
    let pos = hdoff node.page node.off in
    let file = write_at pos node_size (node_buffer id node) t.file in
    let buf = read_at pos node_size file old in
    let whole : pos + node_size ≤ file.size = unfold write_at in ground arith in
    let read = seek_read-read_at pos node_size old file good place whole in
    let agree : (lo hi : ℕ) → hi ≤ 64 → Agree lo hi buf (node_buffer id node) = λ lo hi k.
      read_at-write_at pos node_size node_size (node_buffer id node) old t.file lo hi k k in
    let size : get_int 16 buf ≡ length node.keys =
      get_int-Agree 16 buf (node_buffer id node) (agree 16 20 (omega arith))
      ∙ buffer_size id node small l in
    (
      record t { file = file },
      ap
            (λ o. o >>= λ node. some (record t {
              file = seek_write (hdoff node.page node.off) node_size (node_buffer id node) t.file;
            }))
            e
          ∙ ap (λ f. some (record t { file = f }))
              (seek_write-write_at pos node_size (node_buffer id node) t.file good place),
      rw
          (
            read,
            get_int-Agree 4 buf (node_buffer id node) (agree 4 8 (omega arith)),
            buffer_id id node small l,
            get_int-Agree 8 buf (node_buffer id node) (agree 8 12 (omega arith)),
            buffer_prev id node small l,
            get_int-Agree 12 buf (node_buffer id node) (agree 12 16 (omega arith)),
            buffer_succ id node small l,
            size,
            get_ints-Agree (length node.keys) 32 buf (node_buffer id node)
                (agree 32 (32 + 4 * length node.keys) (omega (arith, small.keys))),
            buffer_keys id node small l,
            get_ints-Agree (length node.keys) 48 buf (node_buffer id node)
                (agree 48 (48 + 4 * length node.keys) (omega (arith, small.keys))),
            buffer_childs id node small l,
            take-all,
          )
          refl,
      rw (read, load_node) refl,
    )
