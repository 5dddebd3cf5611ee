-- ===== src/Tree.antt =====
-- src/btree.cpp, the tree of entries on the disk: pages, and the nodes and entries that are written to
-- them and read from them.
pub mod Buffers
pub mod Nodes
pub mod Entries
use Prim.Native.Nat.{bit_or}
use thkvs.Base.{
  ℕ, zero, suc, ◌+◌, ◌-◌, ◌*◌, ◌/◌, ◌%◌, ◌^◌, List, [], ◌∷◌, ◌++◌, Bool, true, false, ◌&&◌, ◌||◌,
  Option, none, some, ltb, leb, ◌==◌, if◌then◌else◌, Text, length, get_elem?, modify, ◌>>=◌,
}

-- `PAGESIZE` and `NODESIZE`.
abbrev pub page_size : ℕ
page_size = 4096

abbrev pub node_size : ℕ
node_size = 64

-- `Btree::Node` and `Btree::Entry`; a `long long` is its 64 bits.
pub record Node : Type 0 where
  pub id : ℕ
  pub prev : ℕ
  pub succ : ℕ
  pub page : ℕ
  pub off : ℕ
  pub leaf : Bool
  pub keys : List ℕ
  pub childs : List ℕ

pub record Entry : Type 0 where
  pub id : ℕ
  pub timestamp : ℕ
  pub key : Text
  pub value : Text

-- An array of bytes, by index; only the indices below its size are ever written to a file.
abbrev pub Buffer : Type 0
Buffer = ℕ → ℕ

abbrev pub zeros : Buffer
zeros = λ i. 0

-- The file: its bytes and its size, and whether its stream has failed, after which nothing is read or
-- written.
pub record File : Type 0 where
  pub bytes : Buffer
  pub size : ℕ
  pub failed : Bool

pub record Btree : Type 0 where
  pub nodepage : ℕ
  pub nodeoff : ℕ
  pub file : File
  pub entry_page : List ℕ
  pub node_list : List Node
  pub rtid : ℕ

-- The four bytes of an `int`, the lowest first, at an index of the buffer.
unfoldable pub put_int : ℕ → ℕ → Buffer → Buffer
put_int off w buf = λ i.
    if i == off
    then w % 256
    else if i == off + 1
    then w / 256 % 256
    else if i == off + 2
    then w / 65536 % 256
    else if i == off + 3
    then w / 16777216 % 256
    else buf i

-- `*reinterpret_cast<int*>(buf + off)`
unfoldable pub get_int : ℕ → Buffer → ℕ
get_int off buf = buf off + 256 * buf (off + 1) + 65536 * buf (off + 2) + 16777216 * buf (off + 3)

unfoldable pub put_ints : ℕ → List ℕ → Buffer → Buffer
unfolding put_int
put_ints off [] buf = buf
put_ints off (w ∷ ws) buf = put_ints (off + 4) ws (put_int off w buf)

unfoldable pub get_ints : ℕ → ℕ → Buffer → List ℕ
unfolding get_int
get_ints zero off buf = []
get_ints (suc n) off buf = get_int off buf ∷ get_ints n (off + 4) buf

unfoldable pub put_text : ℕ → Text → Buffer → Buffer
put_text off [] buf = buf
put_text off (c ∷ s) buf = put_text (off + 1) s (λ i. if i == off then c else buf i)

unfoldable pub get_text : ℕ → ℕ → Buffer → Text
get_text zero off buf = []
get_text (suc n) off buf = buf off ∷ get_text n (off + 1) buf

-- `file.write(buf, n)`, at a place.
unfoldable pub write_at : ℕ → ℕ → Buffer → File → File
write_at pos n buf file = record file {
  bytes = λ i. if leb pos i && ltb i (pos + n) then buf (i - pos) else file.bytes i;
  size = if ltb file.size (pos + n) then pos + n else file.size;
}

-- `file.read(buf, n)`, at a place: behind the end of the file the buffer keeps what it held.
unfoldable pub read_at : ℕ → ℕ → File → Buffer → Buffer
read_at pos n file old =
    λ i. if ltb i n && ltb (pos + i) file.size then file.bytes (pos + i) else old i

-- `hdoff` is an `int`: it is its bits, and a negative place is none, so that the seek fails.
unfoldable pub fails_at : ℕ → File → Bool
fails_at hdoff file = file.failed || leb 0x8000_0000 hdoff

-- `file.seekp(hdoff); file.write(buf, n)`
unfoldable pub seek_write : ℕ → ℕ → Buffer → File → File
unfolding write_at fails_at
seek_write hdoff n buf file =
    if fails_at hdoff file then record file { failed = true } else write_at hdoff n buf file

-- `file.seekg(hdoff); file.read(buf, n)`; the stream has failed too where the file is too short.
unfoldable pub seek_read : ℕ → ℕ → File → Buffer → Buffer × File
unfolding read_at fails_at
seek_read hdoff n file old =
    if fails_at hdoff file
    then (old, record file { failed = true })
    else (read_at hdoff n file old, record file { failed = ltb file.size (hdoff + n) })

-- `tellp` is -1 where the stream has failed.
unfoldable pub alloc_page : Btree → ℕ × Btree
unfolding write_at
alloc_page t = if t.file.failed then (0xffff_ffff, t) else (
  t.file.size / 4096 % 2 ^ 32,
  record t { file = write_at t.file.size page_size zeros t.file },
)

-- A page for nodes that is full is followed by a new one. The fields of a node that are not set hold
-- what `unset` says.
unfoldable pub alloc_node : Node → Btree → ℕ × Btree
unfolding alloc_page
alloc_node unset t =
    let placed =
      if t.nodeoff == page_size
      then (let (page, t') = alloc_page t in record t' { nodepage = page; nodeoff = 0 })
      else t in
    let node = record unset {
      leaf = true;
      page = placed.nodepage;
      off = placed.nodeoff;
      keys = [];
      childs = [];
    } in
    (
      length t.node_list,
      record placed {
        nodeoff = placed.nodeoff + node_size;
        node_list = placed.node_list ++ node ∷ [];
      },
    )

unfoldable pub alloc_entry : Btree → ℕ × Btree
unfolding alloc_page
alloc_entry t =
    let (page, t') = alloc_page t in
    (length t.entry_page, record t' { entry_page = t'.entry_page ++ page ∷ [] })

-- `(page << 12) | off`
abbrev pub hdoff : ℕ → ℕ → ℕ
hdoff page off = bit_or (page * 4096 % 2 ^ 32) off

-- The buffer that `dumpNode` writes.
unfoldable pub node_buffer : ℕ → Node → Buffer
unfolding put_int put_ints
node_buffer id node = put_ints 48 node.childs (
    put_ints 32 node.keys (
      put_int 16 (length node.keys) (
        put_int 12 node.succ (
          put_int 8 node.prev
            (put_int 4 id (λ i. if i == 1 then 1 else if i == 3 then 1 else 0))))))

-- An id that is no index of `nodeList` is an access out of bounds, `none`.
unfoldable pub dump_node : ℕ → Btree → Option Btree
unfolding node_buffer seek_write
dump_node id t = get_elem? t.node_list id >>= λ node. some (record t {
  file = seek_write (hdoff node.page node.off) node_size (node_buffer id node) t.file;
})

-- `t` is the number of keys, and as many children are read.
unfoldable pub load_node : Node → Buffer → ℕ → ℕ → File → Node × File
unfolding seek_read get_int get_ints
load_node unset old page off file =
    let (buf, file') = seek_read (hdoff page off) node_size file old in
    let t = get_int 16 buf in
    let node = record unset {
      id = get_int 4 buf;
      prev = get_int 8 buf;
      succ = get_int 12 buf;
      keys = get_ints t 32 buf;
      childs = get_ints t 48 buf;
    } in
    (node, file')

-- The buffer that `dumpEntry` writes.
unfoldable pub entry_buffer : Entry → Buffer
unfolding put_int put_text
entry_buffer entry = put_text 64 entry.value (
    put_text 32 entry.key (
      put_int 20 (length entry.value) (
        put_int 16 (length entry.key) (
          put_int 12 (entry.timestamp / 2 ^ 32) (
            put_int 8 (entry.timestamp % 2 ^ 32)
              (put_int 4 entry.id (λ i. if i == 0 then 1 else if i == 2 then 1 else 0)))))))

-- Half a page is written.
unfoldable pub dump_entry : Entry → Btree → Option Btree
unfolding entry_buffer seek_write
dump_entry entry t = get_elem? t.entry_page entry.id >>= λ page. some (record t {
  file = seek_write (page * 4096 % 2 ^ 32) (page_size / 2) (entry_buffer entry) t.file;
})

unfoldable pub entry_of : Buffer → Entry
unfolding get_int get_text
entry_of buf = record {
  id = get_int 4 buf;
  timestamp = get_int 8 buf + 2 ^ 32 * get_int 12 buf;
  key = get_text (get_int 16 buf) 32 buf;
  value = get_text (get_int 20 buf) 64 buf;
}

unfoldable pub load_entry : Buffer → ℕ → File → Entry × File
unfolding seek_read entry_of
load_entry old page file =
    let (buf, file') = seek_read (page * 4096 % 2 ^ 32) page_size file old in (entry_of buf, file')

-- The entry is written, and the tree stays as it is.
unfoldable pub put : ℕ → Entry → Btree → Option (Entry × Btree)
unfolding alloc_entry dump_entry
put key entry t =
    let (id, t') = alloc_entry t in
    let e = record entry { id = id } in dump_entry e t' >>= λ t''. some (e, t'')

-- The file is opened; an empty one gets its first page of nodes, and the root. The fields that are not
-- set hold what `unset` and `unset_node` say; of a file with contents none is set.
unfoldable pub new_tree : Btree → Node → Btree
unfolding alloc_node
new_tree unset unset_node =
    let (id, t) = alloc_node unset_node (record unset { nodepage = 0; nodeoff = page_size }) in
    let root = λ (node : Node). record node { leaf = true; prev = id; succ = id } in
    if unset.file.size == 0
    then record t { rtid = id; node_list = modify t.node_list id root }
    else unset
