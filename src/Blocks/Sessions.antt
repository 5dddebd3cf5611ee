-- ===== src/Blocks/Sessions.antt =====
-- src/data.cpp, runs of puts and gets at the data thread, and the same runs at a map.
use mathlib.Core.Path.{subst}
use thkvs.Base.{
  ℕ, suc, ◌^◌, ◌≤◌, ◌<◌, ◌≡◌, refl, sym, ap, ◌∙◌, inl, inr, ◌⊎◌, List, [], ◌∷◌, Bool, true, false,
  ◌&&◌, ◌||◌, not, Bool-cases, Option, none, some, ◌==◌, ==_iff, if◌then◌else◌, if_true, if_false,
  and_left, and_right, Text, All, length, ◌>>=◌, arith,
}
use thkvs.Base.Int.{pos}
use thkvs.Crc.{get_crc}
use thkvs.Crc.Reference.{get_crc-lt}
use thkvs.State.{Node, KeyValue}
use thkvs.Store.{put_return}
use thkvs.Disk.{Files, rm_texts}
use thkvs.Disk.Signed.{IsWord}
use thkvs.Blocks.{Value, Blocks, declare, start_run, file_name}
use thkvs.Blocks.Divided.{write_file-same}
use thkvs.Blocks.Serve.{blocks_of, put_blocks, get_all}
use thkvs.Blocks.Loop.{Unset, serve}
use thkvs.Blocks.Kept.{holders}
use thkvs.Blocks.Refinement.{Map, set, Refines}
use thkvs.Blocks.Updates.{put_blocks-Refines}
use thkvs.Blocks.Gets.{Reply, NotNegative, get_all_refines}

-- A request with what the variables that are not set hold, and the time.
pub record DataCall : Type 0 where
  pub unset : Unset
  pub now : ℕ
  pub kv : KeyValue

-- A put of a value that a line can hold, or a get.
pub record IsCall (c : DataCall) : Type 0 where
  pub kind : ((c.kv.op ≡ 1) × IsWord c.kv.value) ⊎ (c.kv.op ≡ 2)
  pub bytes : All (λ b. b < 256) c.kv.key
  pub room : 22 ≤ length c.unset.tmp
  pub now : c.now < 2 ^ 63

-- The requests one after the other; none if the loop ends.
abbrev pub serve_all : List DataCall → Blocks → Node → Option (Blocks × Node)
serve_all [] s n = some (s, n)
serve_all (c ∷ cs) s n =
    serve c.unset (pos c.now) c.kv s n >>= λ r. if r.0 then serve_all cs r.1 r.2 else none

-- At each put, one block alone holds the hash.
abbrev pub clear : List DataCall → Blocks → Node → Bool
clear [] s n = true
clear (c ∷ cs) s n =
    (not (c.kv.op == 1) || holders (get_crc c.kv.key) s.hl == 1)
    && elim (serve c.unset (pos c.now) c.kv s n) [ none ↦ false | some r ↦ clear cs r.1 r.2 ]

-- The map after a request.
abbrev pub apply : DataCall → Map → Map
apply c m = if c.kv.op == 1 then set m (get_crc c.kv.key) c.kv.value (pos c.now) else m

abbrev pub replay : List DataCall → Map → Map
replay [] m = m
replay (c ∷ cs) m = replay cs (apply c m)

-- What a map answers to one request.
abbrev pub Answers : DataCall → Map → Node → Node → Type 0
Answers c m n n' =
    if c.kv.op == 1
    then n' ≡ put_return n c.kv.id c.kv.ip c.kv.port 0
    else Reply c.kv (m (get_crc c.kv.key)) n n'

-- One answer to each request, in their order.
abbrev pub Replies : List DataCall → Map → Node → Node → Type 0
Replies [] m n n' = n' ≡ n
Replies (c ∷ cs) m n n' = (n1 : Node) × Answers c m n n1 × Replies cs (apply c m) n1 n'

length-declare : (tmp : List Value) → length (declare tmp) ≡ length tmp
length-declare [] = refl
length-declare (v ∷ tmp) = ap suc (length-declare tmp)

set-NotNegative :
    (m : Map) (hash : ℕ) (value : Text) (t : ℕ)
    → t < 2 ^ 63
    → ((h : ℕ) → NotNegative (m h))
    → (h : ℕ) → NotNegative (set m hash value (pos t) h)
set-NotNegative m hash value t l p h = elim (Bool-cases (hash == h)) [
  | inl e ↦ rw e l
  | inr e ↦ rw e (p h)
]

module _ (c : DataCall) (is : IsCall c) (s : Blocks) (m : Map) (n : Node) (r : Refines s m) where
  serve_put :
      c.kv.op ≡ 1
      → IsWord c.kv.value
      → holders (get_crc c.kv.key) s.hl ≡ 1
      → (s' : Blocks) × (serve c.unset (pos c.now) c.kv s n
          ≡ some (true, s', put_return n c.kv.id c.kv.ip c.kv.port 0))
        × Refines s' (set m (get_crc c.kv.key) c.kv.value (pos c.now))
  unfolding serve
  serve_put op w one =
      let tmp = declare c.unset.tmp in
      let room : 22 ≤ length tmp = omega (arith, length-declare c.unset.tmp, is.room) in
      let p = put_blocks c.kv (get_crc c.kv.key) (pos c.now) s.hl s.files tmp n in
      let (refines, node) =
        put_blocks-Refines c.kv (get_crc c.kv.key) (pos c.now) (is.now, omega arith)
          (get_crc-lt c.kv.key is.bytes) s tmp room n m r one w in
      (blocks_of p, rw op (ap (λ n'. some (true, blocks_of p, n')) node), refines)

  serve_get :
      c.kv.op ≡ 2
      → serve c.unset (pos c.now) c.kv s n ≡ some (true, s, get_all c.kv (get_crc c.kv.key) s n)
  unfolding serve
  serve_get op = rw op refl

  serve_step :
      ((h : ℕ) → NotNegative (m h))
      → (not (c.kv.op == 1) || holders (get_crc c.kv.key) s.hl == 1) ≡ true
      → (s' : Blocks) × (n1 : Node) × (serve c.unset (pos c.now) c.kv s n ≡ some (true, s', n1))
        × Refines s' (apply c m)
        × Answers c m n n1
  serve_step p e = elim is.kind [
    | inl (op, w) ↦
        let t : (c.kv.op == 1) ≡ true = (==_iff c.kv.op 1).1 op in
        let one : holders (get_crc c.kv.key) s.hl ≡ 1 =
          (==_iff (holders (get_crc c.kv.key) s.hl) 1).0
            (sym (ap (λ b. not b || holders (get_crc c.kv.key) s.hl == 1) t) ∙ e) in
        let (s', ran, r') = serve_put op w one in
        (
          s',
          put_return n c.kv.id c.kv.ip c.kv.port 0,
          ran,
          subst (Refines s') (sym (if_true m t)) r',
          rw t refl,
        )
    | inr op ↦
        let f : (c.kv.op == 1) ≡ false = rw op refl in
        (
          s,
          get_all c.kv (get_crc c.kv.key) s n,
          serve_get op,
          subst (Refines s) (sym (if_false (set m (get_crc c.kv.key) c.kv.value (pos c.now)) f)) r,
          rw f (get_all_refines c.kv (get_crc c.kv.key) s m n r (p (get_crc c.kv.key))),
        )
  ]

apply-NotNegative :
    (c : DataCall) (m : Map)
    → c.now < 2 ^ 63
    → ((h : ℕ) → NotNegative (m h))
    → (h : ℕ) → NotNegative (apply c m h)
apply-NotNegative c m l p h = elim (Bool-cases (c.kv.op == 1)) [
  | inl e ↦ rw e (set-NotNegative m (get_crc c.kv.key) c.kv.value c.now l p h)
  | inr e ↦ rw e (p h)
]

abbrev clear_after : List DataCall → Option (Bool × Blocks × Node) → Bool
clear_after cs o = elim o [ none ↦ false | some r ↦ clear cs r.1 r.2 ]

-- In a run of puts, of values that a line can hold, and of gets, with keys of bytes and times
-- below 2 ^ 63, from blocks that stand for a map without negative timestamps, each request is
-- answered once and as the map answers it, and at the end the blocks stand for the map after the
-- run, if at each put one block alone holds the hash and the arrays have 22 elements.
pub serve_all_refines :
    (cs : List DataCall) (s : Blocks) (m : Map) (n : Node)
    → All IsCall cs
    → Refines s m
    → ((h : ℕ) → NotNegative (m h))
    → clear cs s n ≡ true
    → (s' : Blocks) × (n' : Node) × (serve_all cs s n ≡ some (s', n'))
      × Refines s' (replay cs m)
      × Replies cs m n n'
serve_all_refines [] s m n is r p e = (s, n, refl, r, refl)
serve_all_refines (c ∷ cs) s m n is r p e =
    let here = not (c.kv.op == 1) || holders (get_crc c.kv.key) s.hl == 1 in
    let behind = clear_after cs (serve c.unset (pos c.now) c.kv s n) in
    let (s', n1, ran, r', answers) = serve_step c is.0 s m n r p (and_left here behind e) in
    let clear' : clear cs s' n1 ≡ true = sym (ap (clear_after cs) ran) ∙ and_right here behind e in
    let (s'', n'', ran', r'', replies) =
      serve_all_refines cs s' (apply c m) n1 is.1 r' (apply-NotNegative c m is.0.now p) clear' in
    (
      s'',
      n'',
      ap (λ o. o >>= λ r. if r.0 then serve_all cs r.1 r.2 else none) ran ∙ ran',
      r'',
      (n1, answers, replies),
    )

-- The thread starts with blocks that stand for the empty map.
pub start_run-Refines : (files : Files) → Refines (start_run files) (λ h. none)
unfolding start_run
start_run-Refines files = record {
  gs = (record { begin = 0; end = 0xffff_ffff; cnt = 0 }, []) ∷ [];
  kept = record {
    hl = refl;
    held = (
      record {
        file = write_file-same (file_name 0 0xffff_ffff) [] (rm_texts files);
        cnt = refl;
        most = omega arith;
        fits = tt;
        filled = tt;
        range = omega arith;
        last = omega arith;
      },
      tt,
    );
    apart = (tt, tt);
  };
  view = λ h. refl;
}
