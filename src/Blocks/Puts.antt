-- ===== src/Blocks/Puts.antt =====
-- src/data.cpp, request 1 in a block that alone holds the hash: the data thread as a map from hashes
-- to values and timestamps.
use mathlib.Core.List.{append-nil, append_assoc}
use thkvs.Base.{
  ℕ, suc, ◌+◌, ◌≤◌, ◌<◌, ◌≡◌, refl, sym, ap, ◌∙◌, inl, inr, List, [], ◌∷◌, ◌++◌, map, true, false,
  Bool-cases, Option, none, some, Option-cases, leb, if_true, if_false, Text, All, length,
  length-append, arith,
}
use thkvs.Base.Int.{ℤ}
use thkvs.State.{Node, KeyValue}
use thkvs.Store.{put_return}
use thkvs.Disk.{Files}
use thkvs.Blocks.{Value, block_name, holds, store_in}
use thkvs.Blocks.Serve.{stop, go_on, after_split, put_blocks}
use thkvs.Blocks.Filled.{IsFilled, copies, copies-has_key, has_key_below}
use thkvs.Blocks.Divided.{list_of}
use thkvs.Blocks.Kept.{Held, IsHeld, copies_in, holders, Misses}

holders-none : (h : ℕ) (gs : List Held) → holders h (map (λ g. g.0) gs) ≡ 0 → Misses h gs
holders-none h [] e = tt
holders-none h (g ∷ gs) e = elim (Bool-cases (holds g.0 h)) [
  | inl t ↦ ground arith
  | inr t ↦ (t, holders-none h gs (sym (if_false _ t) ∙ e))
]

-- A block that alone holds the hash, between the others.
pub record Holder (h : ℕ) (gs : List Held) : Type 0 where
  pub pre : List Held
  pub here : Held
  pub post : List Held
  pub whole : gs ≡ pre ++ here ∷ post
  pub pre_misses : Misses h pre
  pub holds_it : holds here.0 h ≡ true
  pub post_misses : Misses h post

pub Holder-one : (h : ℕ) (gs : List Held) → holders h (map (λ g. g.0) gs) ≡ 1 → Holder h gs
Holder-one h [] e = ground arith
Holder-one h (g ∷ gs) e = elim (Bool-cases (holds g.0 h)) [
  | inl t ↦
      let rest : holders h (map (λ g. g.0) gs) ≡ 0 =
        let e' = sym (if_true _ t) ∙ e in omega arith in
      record {
        pre = [];
        here = g;
        post = gs;
        whole = refl;
        pre_misses = tt;
        holds_it = t;
        post_misses = holders-none h gs rest;
      }
  | inr t ↦
      let r = Holder-one h gs (sym (if_false _ t) ∙ e) in
      record {
        pre = g ∷ r.pre;
        here = r.here;
        post = r.post;
        whole = ap (λ xs. g ∷ xs) r.whole;
        pre_misses = (t, r.pre_misses);
        holds_it = r.holds_it;
        post_misses = r.post_misses;
      }
]

-- Blocks that do not hold a hash in their range have no entry of it.
copies_outside : (h lo hi : ℕ) (es : List Value) → IsFilled lo hi es → hi < h → copies h es ≡ []
copies_outside h lo hi [] f l = refl
copies_outside h lo hi (e ∷ es) f l =
    let f1 = f.1 in ground (arith, copies_outside h (suc e.key) hi es f.2 l)

pub copies-Misses :
    (h : ℕ) (g : Held) (files : Files) → IsHeld files g → holds g.0 h ≡ false → copies h g.1 ≡ []
copies-Misses h g files k e = elim (Bool-cases (leb g.0.begin h)) [
  | inl l ↦ copies_outside h g.0.begin g.0.end g.1 k.filled (ground arith)
  | inr l ↦ copies-has_key h g.1 (has_key_below h g.0.begin g.0.end g.1 k.filled (ground arith))
]

pub copies_in-Misses :
    (h : ℕ) (gs : List Held) (files : Files)
    → All (IsHeld files) gs
    → Misses h gs
    → copies_in h gs ≡ []
copies_in-Misses h [] files k e = refl
copies_in-Misses h (g ∷ gs) files k e =
    rw (copies-Misses h g files k.0 e.0, copies_in-Misses h gs files k.1 e.1) refl

pub copies_in-append :
    (h : ℕ) (xs ys : List Held) → copies_in h (xs ++ ys) ≡ copies_in h xs ++ copies_in h ys
copies_in-append h [] ys = refl
copies_in-append h (x ∷ xs) ys =
    ap (λ c. copies h x.1 ++ c) (copies_in-append h xs ys)
    ∙ sym (append_assoc (copies h x.1) (copies_in h xs) (copies_in h ys))

module _ (kv : KeyValue) (hash : ℕ) (time_stamp : ℤ) where
  put-Misses :
      (gs : List Held) (files : Files) (tmp : List Value) (n : Node)
      → Misses hash gs
      → put_blocks kv hash time_stamp (map (λ g. g.0) gs) files tmp n
        ≡ stop (map (λ g. g.0) gs) files tmp n false
  unfolding put_blocks stop go_on
  put-Misses [] files tmp n e = refl
  put-Misses (g ∷ gs) files tmp n e =
      rw (e.0, put_blocks) (ap (go_on g.0) (put-Misses gs files tmp n e.1))

  pub put_here :
      (pre : List Held) (g : Held) (post : List Held) (bytes : Text) (files : Files)
      (tmp : List Value) (n : Node)
      → Misses hash pre
      → holds g.0 hash ≡ true
      → Misses hash post
      → files (block_name g.0) ≡ some bytes
      → let st = store_in hash kv.value time_stamp g.0 bytes tmp files in
        put_blocks kv hash time_stamp (map (λ g. g.0) (pre ++ g ∷ post)) files tmp n ≡ record {
          hl = map (λ g. g.0) pre ++ st.block ∷ map (λ g. g.0) post;
          pushed = list_of st.split;
          files = st.files;
          tmp = st.tmp;
          node = put_return n kv.id kv.ip kv.port 0;
          err = false;
        }
  unfolding put_blocks stop go_on after_split
  put_here (p ∷ pre) g post bytes files tmp n before here behind file =
      rw (before.0, put_blocks)
        (ap (go_on p.0) (put_here pre g post bytes files tmp n before.1 here behind file))
  put_here [] g post bytes files tmp n before here behind file =
      let st = store_in hash kv.value time_stamp g.0 bytes tmp files in
      rw (here, put_blocks)
        (rw file (elim (Option-cases st.split) [
          | inl e ↦ rw e refl
          | inr (t, e) ↦ rw e (
              ap (after_split st.block t)
                (put-Misses post st.files st.tmp (put_return n kv.id kv.ip kv.port 0) behind))
        ]))

length-list_of : {A : Type 0} (o : Option A) → length (list_of o) ≤ 1
length-list_of none = omega arith
length-list_of (some x) = omega arith

size-list_of :
    {A : Type 0} (ps ks ns qs : List A) (o : Option A)
    → ps ++ ((ks ++ ns) ++ qs) ≡ list_of o
    → length ps + (length ks + length ns + length qs) ≤ 1
size-list_of ps ks ns qs o e = omega (
  arith,
  length-list_of o,
  ap length e,
  length-append ps ((ks ++ ns) ++ qs),
  length-append (ks ++ ns) qs,
  length-append ks ns,
)

-- A part of a list of at most one element may be moved to its end.
pub rotate :
    {A : Type 0} (ps ks ns qs : List A) (o : Option A)
    → ps ++ ((ks ++ ns) ++ qs) ≡ list_of o
    → (ps ++ (ks ++ qs)) ++ ns ≡ list_of o
rotate ps ks [] qs o e =
    append-nil (ps ++ (ks ++ qs)) ∙ ap (λ r. ps ++ (r ++ qs)) (sym (append-nil ks)) ∙ e
rotate [] [] (x ∷ ns) [] o e = sym (append-nil (x ∷ ns)) ∙ e
rotate [] [] (x ∷ ns) (q ∷ qs) o e =
    absurd (omega (arith, size-list_of [] [] (x ∷ ns) (q ∷ qs) o e))
rotate [] (k ∷ ks) (x ∷ ns) qs o e =
    absurd (omega (arith, size-list_of [] (k ∷ ks) (x ∷ ns) qs o e))
rotate (p ∷ ps) ks (x ∷ ns) qs o e =
    absurd (omega (arith, size-list_of (p ∷ ps) ks (x ∷ ns) qs o e))
