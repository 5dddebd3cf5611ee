-- ===== src/Tests/Trees.antt =====
-- A tree with one node on an empty file, and an entry that is put into it.
use thkvs.Base.{ℕ, ◌<◌, ◌≡◌, refl, [], ◌∷◌, true, false, some, codes, take, arith}
use thkvs.Tree.{Node, Entry, Buffer, Btree, dump_node, load_node, load_entry, put}
use thkvs.Tree.Nodes.{load_node-dump_node}
use thkvs.Tree.Entries.{put-load_entry}

abbrev node : Node
node = record {
  id = 0;
  prev = 8;
  succ = 15;
  page = 0;
  off = 64;
  leaf = true;
  keys = 99 ∷ 120 ∷ [];
  childs = 37 ∷ 38 ∷ 39 ∷ [];
}

abbrev blank_node : Node
blank_node = record {
  id = 7;
  prev = 7;
  succ = 7;
  page = 7;
  off = 7;
  leaf = true;
  keys = [];
  childs = [];
}

abbrev old : Buffer
old = λ i. 255

abbrev tree : Btree
tree = record {
  nodepage = 0;
  nodeoff = 128;
  file = record { bytes = λ i. 0; size = 4096; failed = false };
  entry_page = [];
  node_list = node ∷ [];
  rtid = 0;
}

abbrev entry : Entry
entry = record { id = 0; timestamp = 1111; key = codes "key"; value = codes "value" }

load_node-dump_node_example :
    (t' : Btree) × (dump_node 0 tree ≡ some t')
    × ((load_node blank_node old 0 64 t'.file).0 ≡ record blank_node {
      id = 0;
      prev = 8;
      succ = 15;
      keys = 99 ∷ 120 ∷ [];
      childs = take 2 (37 ∷ 38 ∷ 39 ∷ []);
    })
    × ((load_node blank_node old 0 64 t'.file).1.failed ≡ false)
load_node-dump_node_example =
    load_node-dump_node 0 node blank_node tree old
      (record {
        prev = omega arith;
        succ = omega arith;
        keys = omega arith;
        childs = omega arith;
        children = omega arith;
        all_keys = (omega arith, (omega arith, tt));
        all_childs = (omega arith, (omega arith, (omega arith, tt)));
      })
      (omega arith) refl refl (omega arith)

put-load_entry_example :
    (t' : Btree) × (put 5 entry tree ≡ some (entry, t'))
    × ((load_entry old 1 t'.file).0 ≡ entry)
    × ((load_entry old 1 t'.file).1.failed ≡ false)
    × ((q : ℕ) → q < 1 → (load_entry old q t'.file).0 ≡ (load_entry old q tree.file).0)
put-load_entry_example =
    put-load_entry 5 1 entry tree old
      (record { timestamp = omega arith; key = omega arith; value = omega arith }) refl refl
      (omega arith) (omega arith)
