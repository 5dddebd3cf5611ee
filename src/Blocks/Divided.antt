-- ===== src/Blocks/Divided.antt =====
-- src/data.cpp, the blocks and files that are made when the entries of a block are written back,
-- divided or not.
use mathlib.Core.List.{append-nil}
use thkvs.Base.{
  ℕ, ◌-◌, ◌/◌, ◌^◌, ◌≤◌, ◌<◌, ◌≡◌, refl, sym, ap, ◌∙◌, inl, inr, List, [], ◌∷◌, ◌++◌, map, true,
  false, Bool-cases, Option, none, some, leb, if_true, if_false, Text, text_eq_iff, All, length,
  take, arith,
}
use thkvs.Disk.{Files, write_file, rm}
use thkvs.Blocks.{Value, Hashlist, Stored, block_name, lines, key_at, drop, save}
use thkvs.Blocks.Lines.{Fits}
use thkvs.Blocks.Filled.{IsFilled, copies}
use thkvs.Blocks.Cut.{
  key_at-lower, key_at-upper, take-IsFilled, drop-IsFilled, take-All, drop-All, length-take,
  length-drop, copies-cut, take-take, key_at-take,
}
use thkvs.Blocks.Names.{block_name_differ}
use thkvs.Blocks.Kept.{
  Held, IsHeld, ApartFrom, AreApart, Elsewhere, IsApart-within, IsApart-differ, copies_in,
}

abbrev pub list_of {ℓ} : {A : Type ℓ} → Option A → List A
list_of none = []
list_of (some x) = x ∷ []

-- The block that keeps its place, `kept`, and the ones that are pushed, `new`, hold the entries
-- `rs` in new files, within the range of `b`; the array stays `room` long.
pub record Divides (b : Hashlist) (files : Files) (rs : List Value) (room : ℕ) (st : Stored)
    : Type 0 where
  pub kept : Held
  pub new : List Held
  pub block : st.block ≡ kept.0
  pub split : list_of st.split ≡ map (λ g. g.0) new
  pub kept_held : IsHeld st.files kept
  pub new_held : All (IsHeld st.files) new
  pub elsewhere : Elsewhere b files st.files
  pub within : (b.begin ≤ kept.0.begin) × (kept.0.end ≤ b.end)
  pub all_within : All (λ g. (b.begin ≤ g.0.begin) × (g.0.end ≤ b.end)) new
  pub apart : ApartFrom kept.0 new
  pub new_apart : AreApart new
  pub array : length st.tmp ≡ room
  pub view : (h : ℕ) → copies h rs ≡ copies h kept.1 ++ copies_in h new

-- A file that is written is read back, and another one is left as it is.
pub write_file-same :
    (name bytes : Text) (files : Files) → write_file name bytes files name ≡ some bytes
write_file-same name bytes files = if_true _ ((text_eq_iff name name).1 refl)

module _ (b : Hashlist) (files : Files) (rs full : List Value) (front : take (length rs) full ≡ rs)
    (fits : All Fits rs) (filled : IsFilled b.begin b.end rs) (range : b.begin < b.end)
    (last : b.end < 2 ^ 32) where
  b' : Hashlist
  b' = record b { cnt = length rs }

  Divides-small : length rs ≤ 20 → Divides b files rs (length full) (save b' full files)
  unfolding save b'
  Divides-small l =
      let few : leb (length rs) 20 ≡ true = ground arith in
      rw (few, front)
        (record {
          kept = (b', rs);
          new = [];
          block = refl;
          split = refl;
          kept_held = record {
            file = write_file-same (block_name b) (lines rs) files;
            cnt = refl;
            most = l;
            fits = fits;
            filled = filled;
            range = range;
            last = last;
          };
          new_held = tt;
          elsewhere = λ x a r m. if_false _ (IsApart-differ b x a range last r m);
          within = (omega arith, omega arith);
          all_within = tt;
          apart = tt;
          new_apart = tt;
          array = refl;
          view = λ h. sym (append-nil _);
        })

  module _ (many : 20 < length rs) (most : length rs ≤ 21) where
    n : ℕ
    n = length rs / 2

    c : ℕ
    unfolding n
    c = key_at rs n

    front_block : Hashlist
    unfolding c n
    front_block = record { begin = b.begin; end = c; cnt = n }

    back_block : Hashlist
    unfolding c n
    back_block = record { begin = c; end = b.end; cnt = length rs - n }

    inside : (b.begin < c) × (c < b.end)
    unfolding c n
    inside =
        let l = key_at-lower n b.begin b.end rs (omega arith) filled in
        let u = key_at-upper n b.begin b.end rs (omega arith) filled in (omega arith, omega arith)

    cut_files : Files
    unfolding front_block back_block c n
    cut_files = rm (block_name b) (
        write_file (block_name back_block) (lines (drop n rs))
          (write_file (block_name front_block) (lines (take n rs)) files))

    save_divided :
        save b' full files
        ≡ record { block = front_block; split = some back_block; files = cut_files; tmp = full }
    unfolding save b' front_block back_block cut_files c n
    save_divided =
        let more : leb (length rs) 20 ≡ false = ground arith in
        let key : key_at full (length rs / 2) ≡ key_at rs (length rs / 2) =
          sym (key_at-take (length rs / 2) (length rs) full (omega arith))
          ∙ ap (λ r. key_at r (length rs / 2)) front in
        let start : take (length rs / 2) full ≡ take (length rs / 2) rs =
          sym (take-take (length rs / 2) (length rs) full (omega arith))
          ∙ ap (take (length rs / 2)) front in
        rw (more, key, start, front) refl

    front-IsHeld : IsHeld cut_files (front_block, take n rs)
    unfolding front_block back_block cut_files c n
    front-IsHeld = record {
      file =
          if_false _ (
            block_name_differ b front_block (omega arith) last (omega arith) (omega (arith, inside))
              (inr λ e. omega (arith, inside)))
          ∙ if_false _ (
              block_name_differ back_block front_block (omega (arith, inside)) last (omega arith)
                (omega (arith, inside)) (inl λ e. omega (arith, inside)))
          ∙ write_file-same (block_name front_block) (lines (take n rs)) files;
      cnt = sym (length-take n rs (omega arith));
      most = omega arith;
      fits = take-All Fits n rs fits;
      filled = take-IsFilled n b.begin b.end rs (omega arith) filled;
      range = inside.0;
      last = omega (arith, inside);
    }

    back-IsHeld : IsHeld cut_files (back_block, drop n rs)
    unfolding front_block back_block cut_files c n
    back-IsHeld = record {
      file =
          if_false _ (
            block_name_differ b back_block (omega arith) last (omega (arith, inside)) last
              (inl λ e. omega (arith, inside)))
          ∙ write_file-same (block_name back_block) (lines (drop n rs))
              (write_file (block_name front_block) (lines (take n rs)) files);
      cnt = sym (length-drop n rs);
      most = omega arith;
      fits = drop-All Fits n rs fits;
      filled = drop-IsFilled n b.begin b.end rs (omega arith) filled;
      range = inside.1;
      last = last;
    }

    cut_files-Elsewhere : Elsewhere b files cut_files
    unfolding front_block back_block cut_files
    cut_files-Elsewhere x a r m =
        if_false _ (IsApart-differ b x a range last r m)
        ∙ if_false _ (
            IsApart-differ back_block x
              (IsApart-within b back_block x (omega (arith, inside)) (omega arith) a) inside.1 last
              r m)
        ∙ if_false _ (
            IsApart-differ front_block x
              (IsApart-within b front_block x (omega arith) (omega (arith, inside)) a) inside.0
              (omega (arith, inside)) r m)

    Divides-large : Divides b files rs (length full) (save b' full files)
    unfolding front_block back_block
    Divides-large = rw save_divided (record {
      kept = (front_block, take n rs);
      new = (back_block, drop n rs) ∷ [];
      block = refl;
      split = refl;
      kept_held = front-IsHeld;
      new_held = (back-IsHeld, tt);
      elsewhere = cut_files-Elsewhere;
      within = (omega arith, omega (arith, inside));
      all_within = ((omega (arith, inside), omega arith), tt);
      apart = (inl (omega arith), tt);
      new_apart = (tt, tt);
      array = refl;
      view = λ h. copies-cut h n rs ∙ ap (λ q. copies h (take n rs) ++ q) (sym (append-nil _));
    })

  -- At most 21 ascending entries in the range of a block are written back as one block or as
  -- two, of at most 20 entries each and apart from each other; their files hold the same entries
  -- of each hash, and the files of blocks that are apart from the block stay as they are.
  pub Divides-save :
      length rs ≤ 21
      → Divides b files rs (length full) (save (record b { cnt = length rs }) full files)
  unfolding b'
  Divides-save most = elim (Bool-cases (leb (length rs) 20)) [
    | inl e ↦ Divides-small (ground arith)
    | inr e ↦ Divides-large (ground arith) most
  ]
