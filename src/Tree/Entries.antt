-- ===== src/Tree/Entries.antt =====
-- src/btree.cpp, entries that are put into a page of their own and read from it.
use mathlib.Core.Path.{fun_ext}
use thkvs.Base.{
  ℕ, ◌+◌, ◌*◌, ◌/◌, ◌%◌, ◌^◌, ◌≤◌, ◌<◌, false, ◌≡◌, refl, sym, ap, ◌∙◌, inl, inr, List, [], ◌∷◌,
  ◌++◌, some, Bool-cases, ltb, length, get_elem?, ◌>>=◌, arith,
}
use thkvs.Tree.{
  Entry, Buffer, zeros, File, Btree, get_int, get_text, write_at, read_at, page_size, entry_of,
  entry_buffer, dump_entry, load_entry, alloc_page, alloc_entry, put,
}
use thkvs.Tree.Buffers.{
  Agree, get_int-Agree, get_text-Agree, get_int-put_int, get_int-put_int_other, get_int-put_text,
  get_text-put_text, get_text-put_text_other, read_at-write_at, seek_read-read_at,
  seek_write-write_at,
}

-- An entry that half a page holds.
pub record IsShort (e : Entry) : Type 0 where
  pub timestamp : e.timestamp < 2 ^ 64
  pub key : length e.key ≤ 32
  pub value : length e.value ≤ 1984

module _ (e : Entry) (short : IsShort e) (l : e.id < 2 ^ 32) where
  buffer_id : get_int 4 (entry_buffer e) ≡ e.id
  unfolding entry_buffer
  buffer_id =
      get_int-put_text 4 64 e.value _ (omega arith)
      ∙ get_int-put_text 4 32 e.key _ (omega arith)
      ∙ get_int-put_int_other 4 20 (length e.value) _ (inl (omega arith))
      ∙ get_int-put_int_other 4 16 (length e.key) _ (inl (omega arith))
      ∙ get_int-put_int_other 4 12 (e.timestamp / 2 ^ 32) _ (inl (omega arith))
      ∙ get_int-put_int_other 4 8 (e.timestamp % 2 ^ 32) _ (inl (omega arith))
      ∙ get_int-put_int 4 e.id _ l

  buffer_low : get_int 8 (entry_buffer e) ≡ e.timestamp % 2 ^ 32
  unfolding entry_buffer
  buffer_low =
      get_int-put_text 8 64 e.value _ (omega arith)
      ∙ get_int-put_text 8 32 e.key _ (omega arith)
      ∙ get_int-put_int_other 8 20 (length e.value) _ (inl (omega arith))
      ∙ get_int-put_int_other 8 16 (length e.key) _ (inl (omega arith))
      ∙ get_int-put_int_other 8 12 (e.timestamp / 2 ^ 32) _ (inl (omega arith))
      ∙ get_int-put_int 8 (e.timestamp % 2 ^ 32) _ (omega arith)

  buffer_high : get_int 12 (entry_buffer e) ≡ e.timestamp / 2 ^ 32
  unfolding entry_buffer
  buffer_high =
      get_int-put_text 12 64 e.value _ (omega arith)
      ∙ get_int-put_text 12 32 e.key _ (omega arith)
      ∙ get_int-put_int_other 12 20 (length e.value) _ (inl (omega arith))
      ∙ get_int-put_int_other 12 16 (length e.key) _ (inl (omega arith))
      ∙ get_int-put_int 12 (e.timestamp / 2 ^ 32) _ (let t = short.timestamp in omega arith)

  buffer_key_size : get_int 16 (entry_buffer e) ≡ length e.key
  unfolding entry_buffer
  buffer_key_size =
      get_int-put_text 16 64 e.value _ (omega arith)
      ∙ get_int-put_text 16 32 e.key _ (omega arith)
      ∙ get_int-put_int_other 16 20 (length e.value) _ (inl (omega arith))
      ∙ get_int-put_int 16 (length e.key) _ (omega (arith, short.key))

  buffer_value_size : get_int 20 (entry_buffer e) ≡ length e.value
  unfolding entry_buffer
  buffer_value_size =
      get_int-put_text 20 64 e.value _ (omega arith)
      ∙ get_int-put_text 20 32 e.key _ (omega arith)
      ∙ get_int-put_int 20 (length e.value) _ (omega (arith, short.value))

  buffer_key : get_text (length e.key) 32 (entry_buffer e) ≡ e.key
  unfolding entry_buffer
  buffer_key =
      get_text-put_text_other (length e.key) 32 64 e.value _ (omega (arith, short.key))
      ∙ get_text-put_text 32 e.key _

  buffer_value : get_text (length e.value) 64 (entry_buffer e) ≡ e.value
  unfolding entry_buffer
  buffer_value = get_text-put_text 64 e.value _

  -- What is written as an entry is read back as it was.
  entry_of-write_at :
      (pos : ℕ) (file : File) (old : Buffer)
      → entry_of (read_at pos page_size (write_at pos 2048 (entry_buffer e) file) old) ≡ e
  unfolding entry_of
  entry_of-write_at pos file old =
      let buf = read_at pos page_size (write_at pos 2048 (entry_buffer e) file) old in
      let agree : (lo hi : ℕ) → hi ≤ 2048 → Agree lo hi buf (entry_buffer e) = λ lo hi k.
        read_at-write_at pos 2048 page_size (entry_buffer e) old file lo hi k (omega arith) in
      let time : e.timestamp % 2 ^ 32 + 2 ^ 32 * (e.timestamp / 2 ^ 32) ≡ e.timestamp =
        omega arith in
      rw
        (
          get_int-Agree 4 buf (entry_buffer e) (agree 4 8 (omega arith)),
          buffer_id,
          get_int-Agree 8 buf (entry_buffer e) (agree 8 12 (omega arith)),
          buffer_low,
          get_int-Agree 12 buf (entry_buffer e) (agree 12 16 (omega arith)),
          buffer_high,
          get_int-Agree 16 buf (entry_buffer e) (agree 16 20 (omega arith)),
          buffer_key_size,
          get_int-Agree 20 buf (entry_buffer e) (agree 20 24 (omega arith)),
          buffer_value_size,
          get_text-Agree (length e.key) 32 buf (entry_buffer e)
              (agree 32 (32 + length e.key) (omega (arith, short.key))),
          buffer_key,
          get_text-Agree (length e.value) 64 buf (entry_buffer e)
              (agree 64 (64 + length e.value) (omega (arith, short.value))),
          buffer_value,
          time,
        )
        refl

-- What is read of a page that is in the file.
load_entry_reads :
    (page : ℕ) (file : File) (old : Buffer)
    → file.failed ≡ false
    → page * 4096 < 0x8000_0000
    → page * 4096 + 4096 ≤ file.size
    → load_entry old page file
      ≡ (entry_of (read_at (page * 4096) page_size file old), record file { failed = false })
unfolding load_entry
load_entry_reads page file old good place whole =
    let same : page * 4096 % 2 ^ 32 ≡ page * 4096 = omega arith in
    rw same (rw (seek_read-read_at (page * 4096) page_size old file good place whole) refl)

-- A write at or behind the end of a page leaves what is read from the page, if that page was written.
read_at-before :
    (pos n at m : ℕ) (buf old : Buffer) (file : File)
    → at + m ≤ pos
    → at + m ≤ file.size
    → read_at at m (write_at pos n buf file) old ≡ read_at at m file old
unfolding read_at write_at
read_at-before pos n at m buf old file l k =
    fun_ext (λ i. elim (Bool-cases (ltb i m)) [ inl e ↦ rw e (ground arith) | inr e ↦ rw e refl ])

get_elem?-append-last : (xs : List ℕ) (x : ℕ) → get_elem? (xs ++ x ∷ []) (length xs) ≡ some x
get_elem?-append-last [] x = refl
get_elem?-append-last (y ∷ xs) x = get_elem?-append-last xs x

load_entry-before :
    (pos n q : ℕ) (buf old : Buffer) (file : File)
    → file.failed ≡ false
    → q * 4096 < 0x8000_0000
    → q * 4096 + 4096 ≤ pos
    → q * 4096 + 4096 ≤ file.size
    → (load_entry old q (write_at pos n buf file)).0 ≡ (load_entry old q file).0
unfolding write_at
load_entry-before pos n q buf old file good s l k =
    let whole : q * 4096 + 4096 ≤ (write_at pos n buf file).size = ground arith in
    ap (λ r. r.0) (load_entry_reads q (write_at pos n buf file) old good s whole)
    ∙ ap entry_of (read_at-before pos n (q * 4096) page_size buf old file l k)
    ∙ ap (λ r. r.0) (sym (load_entry_reads q file old good s k))

-- The file with a new page at its end.
abbrev longer : File → File
longer file = write_at file.size page_size zeros file

alloc_page_lem :
    (p : ℕ) (t : Btree)
    → t.file.failed ≡ false
    → t.file.size ≡ p * 4096
    → p * 4096 < 0x8000_0000
    → alloc_page t ≡ (p, record t { file = longer t.file })
unfolding alloc_page
alloc_page_lem p t good size fits =
    let same : t.file.size / 4096 % 2 ^ 32 ≡ p = omega arith in rw (good, same) refl

-- An entry with a key of at most 32 bytes, a value of at most 1984 bytes and a timestamp of 64
-- bits is put into a new page at the end of a file of whole pages, below 2 ^ 31, whose stream has not
-- failed, under the next id, below 2 ^ 32; it is read back from there, the stream has not failed
-- behind it, and the pages before it are read as before.
pub put-load_entry :
    (key p : ℕ) (entry : Entry) (t : Btree) (old : Buffer)
    → IsShort entry
    → t.file.failed ≡ false
    → t.file.size ≡ p * 4096
    → p * 4096 < 0x8000_0000
    → length t.entry_page < 2 ^ 32
    → let e = record entry { id = length t.entry_page } in
      (t' : Btree) × (put key entry t ≡ some (e, t'))
      × ((load_entry old p t'.file).0 ≡ e)
      × ((load_entry old p t'.file).1.failed ≡ false)
      × ((q : ℕ) → q < p → (load_entry old q t'.file).0 ≡ (load_entry old q t.file).0)
unfolding put alloc_entry dump_entry write_at
put-load_entry key p entry t old short good size fits ids =
    let e = record entry { id = length t.entry_page } in
    let first = longer t.file in
    let t1 : Btree = record t { file = first; entry_page = t.entry_page ++ p ∷ [] } in
    let file = write_at (p * 4096) 2048 (entry_buffer e) first in
    let place : p * 4096 % 2 ^ 32 ≡ p * 4096 = omega arith in
    let grown : p * 4096 + 4096 ≤ first.size = ground arith in
    let whole : p * 4096 + 4096 ≤ file.size = ground arith in
    let read = load_entry_reads p file old good fits whole in
    (
      record t1 { file = file },
      rw (alloc_page_lem p t good size fits, get_elem?-append-last t.entry_page p, ◌>>=◌, place)
          (ap (λ f. some (e, record t1 { file = f }))
            (seek_write-write_at (p * 4096) 2048 (entry_buffer e) first good fits)),
      ap (λ r. r.0) read
          ∙ entry_of-write_at e
              (record { timestamp = short.timestamp; key = short.key; value = short.value }) ids
              (p * 4096) first old,
      ap (λ r. r.1.failed) read,
      λ q below.
          load_entry-before (p * 4096) 2048 q (entry_buffer e) old first good (omega arith)
            (omega arith) (omega arith)
          ∙ load_entry-before t.file.size page_size q zeros old t.file good (omega arith)
              (omega arith) (omega arith),
    )
