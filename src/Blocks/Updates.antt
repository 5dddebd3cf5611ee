-- ===== src/Blocks/Updates.antt =====
-- src/data.cpp, requests 1 and 4 in a block that alone holds the hash, as updates of the map.
use mathlib.Core.Path.{subst}
use thkvs.Base.{
  ℕ, ◌^◌, ◌≤◌, ◌<◌, ◌≡◌, refl, sym, ap, ◌∙◌, inl, inr, List, [], ◌∷◌, ◌++◌, true, false, some,
  Option-cases, Text, length,
}
use thkvs.Base.Int.{ℤ}
use thkvs.State.{Node, KeyValue}
use thkvs.Store.{put_return}
use thkvs.Disk.{Files}
use thkvs.Disk.Signed.{IsWord, IsLong}
use thkvs.Blocks.{Value, Blocks, block_name, holds, lines, store_in}
use thkvs.Blocks.Serve.{stop, go_on, after_split, blocks_of, put_blocks, take_blocks}
use thkvs.Blocks.Divided.{list_of}
use thkvs.Blocks.Kept.{Held, IsKept, copies_in, holders, Misses}
use thkvs.Blocks.Puts.{Holder, Holder-one, put_here}
use thkvs.Blocks.Refinement.{heads, Map, set, Refines, store_at_holder}

module _ (kv : KeyValue) (hash : ℕ) (value : Text) (time_stamp : ℤ) where
  take-Misses :
      (gs : List Held) (files : Files) (tmp : List Value) (n : Node)
      → Misses hash gs
      → take_blocks kv hash value time_stamp (heads gs) files tmp n
        ≡ stop (heads gs) files tmp n false
  unfolding take_blocks stop go_on
  take-Misses [] files tmp n e = refl
  take-Misses (g ∷ gs) files tmp n e =
      rw (e.0, take_blocks) (ap (go_on g.0) (take-Misses gs files tmp n e.1))

  take_here :
      (pre : List Held) (g : Held) (post : List Held) (bytes : Text) (files : Files)
      (tmp : List Value) (n : Node)
      → Misses hash pre
      → holds g.0 hash ≡ true
      → Misses hash post
      → files (block_name g.0) ≡ some bytes
      → let st = store_in hash value time_stamp g.0 bytes tmp files in
        take_blocks kv hash value time_stamp (heads (pre ++ g ∷ post)) files tmp n ≡ record {
          hl = heads pre ++ st.block ∷ heads post;
          pushed = list_of st.split;
          files = st.files;
          tmp = st.tmp;
          node = n;
          err = false;
        }
  unfolding take_blocks stop go_on after_split
  take_here (p ∷ pre) g post bytes files tmp n before here behind file =
      rw (before.0, take_blocks)
        (ap (go_on p.0) (take_here pre g post bytes files tmp n before.1 here behind file))
  take_here [] g post bytes files tmp n before here behind file =
      let st = store_in hash value time_stamp g.0 bytes tmp files in
      rw (here, take_blocks)
        (rw file (elim (Option-cases st.split) [
          | inl e ↦ rw e (ap (go_on st.block) (take-Misses post st.files st.tmp n behind))
          | inr (t, e) ↦
              rw e (ap (after_split st.block t) (take-Misses post st.files st.tmp n behind))
        ]))

module _ (kv : KeyValue) (hash : ℕ) (time_stamp : ℤ) (t : IsLong time_stamp) (small : hash < 2 ^ 32)
    (s : Blocks) (tmp : List Value) (room : 22 ≤ length tmp) (n : Node) (m : Map) (r : Refines s m)
    (one : holders hash s.hl ≡ 1) where
  holder : Holder hash r.gs
  holder = Holder-one hash r.gs (sym (ap (holders hash) r.kept.hl) ∙ one)

  -- A put whose hash lies in one block alone updates the map, and is answered once, with success.
  pub put_blocks-Refines :
      IsWord kv.value
      → let p = put_blocks kv hash time_stamp s.hl s.files tmp n in
        Refines (blocks_of p) (set m hash kv.value time_stamp)
        × (p.node ≡ put_return n kv.id kv.ip kv.port 0)
  put_blocks-Refines w =
      let o = holder in
      let (refines, size, file) =
        store_at_holder hash kv.value time_stamp w t small s tmp room m o.pre o.here o.post
          (subst (IsKept s) o.whole r.kept)
          (subst (λ gs. (h : ℕ) → copies_in h gs ≡ list_of (m h)) o.whole r.view) o.pre_misses
          o.holds_it o.post_misses in
      let ran =
        ap (λ hl. put_blocks kv hash time_stamp hl s.files tmp n) (r.kept.hl ∙ ap heads o.whole)
        ∙ put_here kv hash time_stamp o.pre o.here o.post (lines (o.here.1)) s.files tmp n
            o.pre_misses o.holds_it o.post_misses file in
      subst
        (λ p.
          Refines (blocks_of p) (set m hash kv.value time_stamp)
          × (p.node ≡ put_return n kv.id kv.ip kv.port 0))
        (sym ran) (refines, refl)

  -- So does an entry that is taken in; the process is left as it is.
  pub take_blocks-Refines :
      (value : Text)
      → IsWord value
      → let p = take_blocks kv hash value time_stamp s.hl s.files tmp n in
        Refines (blocks_of p) (set m hash value time_stamp)
        × (p.node ≡ n)
        × (p.err ≡ false)
        × (length p.tmp ≡ length tmp)
  take_blocks-Refines value w =
      let o = holder in
      let (refines, size, file) =
        store_at_holder hash value time_stamp w t small s tmp room m o.pre o.here o.post
          (subst (IsKept s) o.whole r.kept)
          (subst (λ gs. (h : ℕ) → copies_in h gs ≡ list_of (m h)) o.whole r.view) o.pre_misses
          o.holds_it o.post_misses in
      let ran =
        ap (λ hl. take_blocks kv hash value time_stamp hl s.files tmp n)
          (r.kept.hl ∙ ap heads o.whole)
        ∙ take_here kv hash value time_stamp o.pre o.here o.post (lines (o.here.1)) s.files tmp n
            o.pre_misses o.holds_it o.post_misses file in
      subst
        (λ p.
          Refines (blocks_of p) (set m hash value time_stamp)
          × (p.node ≡ n)
          × (p.err ≡ false)
          × (length p.tmp ≡ length tmp))
        (sym ran) (refines, refl, refl, size)
