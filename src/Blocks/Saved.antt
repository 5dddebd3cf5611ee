-- ===== src/Blocks/Saved.antt =====
-- src/data.cpp, an entry that is put into a block: what the block holds then.
use thkvs.Base.{
  ℕ, suc, ◌^◌, ◌≤◌, ◌<◌, ◌≡◌, ◌≢◌, refl, sym, ap, ◌∙◌, inl, inr, List, [], ◌∷◌, ◌++◌, true, false,
  Bool-cases, ltb, if_true, if_false, Text, All, length, length-modify, take, modify, arith,
}
use thkvs.Base.Int.{ℤ}
use thkvs.Disk.{Files, open_in}
use thkvs.Disk.Signed.{IsWord, IsLong}
use thkvs.Blocks.{
  Value, Hashlist, lines, sort, insert_sorted, has_key, sort_first, drop, read_values, update,
  assign_value, save, place, store_in,
}
use thkvs.Blocks.Lines.{Fits, overlay, read_values-lines}
use thkvs.Blocks.Filled.{
  IsFilled, copies, sort-IsFilled, sort-append, insert_sorted-IsFilled, copies-insert_sorted,
}
use thkvs.Blocks.Cut.{length-insert_sorted, length-sort_first}
use thkvs.Blocks.Laid.{
  updated, take-overlay, length-laid, length-overlay, take-modify-overlay, has_key-updated,
  updated-IsFilled, updated-All, copies-updated, copies-updated_other,
}

-- The entries `rs` are the entries `es` with a new value and timestamp under one hash.
pub record Renews (lo hi hash : ℕ) (value : Text) (time_stamp : ℤ) (es rs : List Value)
    : Type 0 where
  pub filled : IsFilled lo hi rs
  pub fits : All Fits rs
  pub most : length rs ≤ suc (length es)
  pub here : copies hash rs ≡ (value, time_stamp) ∷ []
  pub others : (h : ℕ) → hash ≢ h → copies h rs ≡ copies h es

take-length : (xs ys : List Value) → take (length xs) (xs ++ ys) ≡ xs
take-length [] ys = refl
take-length (x ∷ xs) ys = ap (λ zs. x ∷ zs) (take-length xs ys)

insert_sorted-All :
    (x : Value) (vs : List Value) → Fits x → All Fits vs → All Fits (insert_sorted x vs)
insert_sorted-All x [] f h = (f, tt)
insert_sorted-All x (v ∷ vs) f h = elim (Bool-cases (ltb v.key x.key)) [
  | inl e ↦ rw e (h.0, insert_sorted-All x vs f h.1)
  | inr e ↦ rw e (f, h)
]

module _ (hash : ℕ) (value : Text) (time_stamp : ℤ) (w : IsWord value) (t : IsLong time_stamp)
    (small : hash < 2 ^ 32) where
  module _ (lo hi : ℕ) (es tmp : List Value) (fits : All Fits es) (filled : IsFilled lo hi es)
      (room : length es < length tmp) where
    renew : List Value
    renew = updated hash value time_stamp es tmp

    renew-Renews : has_key hash es ≡ true → Renews lo hi hash value time_stamp es renew
    unfolding renew
    renew-Renews e = record {
      filled = updated-IsFilled hash value time_stamp lo hi es tmp filled;
      fits = updated-All hash value time_stamp es tmp w t fits;
      most = omega (arith, length-laid (update hash value time_stamp) es tmp (omega arith));
      here = copies-updated hash value time_stamp lo hi es tmp (omega arith) filled e;
      others = λ h ne. copies-updated_other hash value time_stamp h es tmp (omega arith) ne;
    }

    renew-insert_sorted-Renews :
        (old : Value)
        → has_key hash es ≡ false
        → lo ≤ hash
        → hash ≤ hi
        → Renews lo hi hash value time_stamp es
            (insert_sorted (assign_value hash value time_stamp old) renew)
    unfolding renew
    renew-insert_sorted-Renews old e l m =
        let x = assign_value hash value time_stamp old in
        let new : has_key hash renew ≡ false =
          has_key-updated hash value time_stamp hash es tmp (omega arith) ∙ e in
        record {
          filled =
              insert_sorted-IsFilled x lo hi renew
                (updated-IsFilled hash value time_stamp lo hi es tmp filled) new l m;
          fits =
              insert_sorted-All x renew (record { key = small; value = w; time_stamp = t })
                (updated-All hash value time_stamp es tmp w t fits);
          most = omega (
            arith,
            length-insert_sorted x renew,
            length-laid (update hash value time_stamp) es tmp (omega arith),
          );
          here = copies-insert_sorted x hash renew new ∙ ground arith;
          others = λ h ne.
              copies-insert_sorted x h renew new
              ∙ ground (arith, copies-updated_other hash value time_stamp h es tmp);
        }

    module _ (b : Hashlist) (files : Files) (cnt : b.cnt ≡ length es) where
      read : List Value
      read = overlay (update hash value time_stamp) es tmp

      SavedAs : List Value → List Value → Type 0
      SavedAs rs full =
          (take (length rs) full ≡ rs)
          × (length full ≡ length tmp)
          × (place hash value time_stamp b read files
              ≡ save (record b { cnt = length rs }) full files)

      place_old : has_key hash es ≡ true → SavedAs renew (sort_first (length es) read)
      unfolding renew read SavedAs place
      place_old e =
          let change = update hash value time_stamp in
          let front : take (length es) read ≡ renew = take-overlay change es tmp (omega arith) in
          let sorted : sort renew ≡ renew =
            sort-IsFilled lo hi renew
              (updated-IsFilled hash value time_stamp lo hi es tmp filled) in
          let there : has_key hash (take b.cnt read) ≡ true =
            rw (cnt, front) (has_key-updated hash value time_stamp hash es tmp (omega arith) ∙ e) in
          let size : b.cnt ≡ length renew = cnt ∙ sym (length-laid change es tmp (omega arith)) in
          (
            rw (front, sorted) (take-length renew (drop (length es) read)),
            length-sort_first (length es) read ∙ length-overlay change es tmp,
            if_true _ there
                ∙ ap (λ c. save (record b { cnt = c }) (sort_first b.cnt read) files) size
                ∙ ap (λ c. save (record b { cnt = length renew }) (sort_first c read) files) cnt,
          )

      place_new :
          has_key hash es ≡ false
          → hash ≤ hi
          → (old : Value) × (full : List Value) × SavedAs
              (insert_sorted (assign_value hash value time_stamp old) renew)
              full
      unfolding renew read SavedAs place
      place_new e m =
          let change = update hash value time_stamp in
          let assign = assign_value hash value time_stamp in
          let front : take (length es) read ≡ renew = take-overlay change es tmp (omega arith) in
          let new : has_key hash renew ≡ false =
            has_key-updated hash value time_stamp hash es tmp (omega arith) ∙ e in
          let missing : has_key hash (take b.cnt read) ≡ false = rw (cnt, front) new in
          let (old, more) = take-modify-overlay change assign es tmp room in
          let sorted : sort (renew ++ assign old ∷ []) ≡ insert_sorted (assign old) renew =
            sort-append (assign old) lo hi renew
              (updated-IsFilled hash value time_stamp lo hi es tmp filled) new m in
          let rs = insert_sorted (assign old) renew in
          let array = modify read (length es) assign in
          let size : suc b.cnt ≡ length rs =
            ap suc (cnt ∙ sym (length-laid change es tmp (omega arith)))
            ∙ sym (length-insert_sorted (assign old) renew) in
          (
            old,
            sort_first (suc (length es)) array,
            (
              rw (more, sorted) (take-length rs (drop (suc (length es)) array)),
              length-sort_first (suc (length es)) array
                  ∙ length-modify read (length es) assign
                  ∙ length-overlay change es tmp,
              if_false _ missing
                  ∙ ap
                      (λ c.
                        save (record b { cnt = c })
                          (sort_first (suc b.cnt) (modify read b.cnt assign)) files)
                      size
                  ∙ ap
                      (λ c.
                        save (record b { cnt = length rs })
                          (sort_first (suc c) (modify read c assign)) files)
                      cnt,
            ),
          )

  -- An entry that is put into a block becomes the entry of its hash, and the block is saved.
  pub store_in-lines :
      (b : Hashlist) (es tmp : List Value) (files : Files)
      → b.cnt ≡ length es
      → All Fits es
      → IsFilled b.begin b.end es
      → length es < length tmp
      → b.begin ≤ hash
      → hash ≤ b.end
      → (rs : List Value) × (full : List Value) × Renews b.begin b.end hash value time_stamp es rs
        × (take (length rs) full ≡ rs)
        × (length full ≡ length tmp)
        × (store_in hash value time_stamp b (lines es) tmp files
            ≡ save (record b { cnt = length rs }) full files)
  unfolding store_in read SavedAs
  store_in-lines b es tmp files cnt fits filled room l m =
      let change = update hash value time_stamp in
      let reads : store_in hash value time_stamp b (lines es) tmp files
          ≡ place hash value time_stamp b (overlay change es tmp) files =
        ap
          (λ c. place hash value time_stamp b (read_values change c (open_in (lines es)) tmp) files)
          cnt
        ∙ ap (λ r. place hash value time_stamp b r files)
            (read_values-lines change es (lines es) tmp fits refl (omega arith)) in
      elim (Bool-cases (has_key hash es)) [
        | inl e ↦
            let s = place_old b.begin b.end es tmp fits filled room b files cnt e in
            (
              renew b.begin b.end es tmp fits filled room,
              sort_first (length es) (overlay change es tmp),
              renew-Renews b.begin b.end es tmp fits filled room e,
              s.0,
              s.1,
              reads ∙ s.2,
            )
        | inr e ↦
            let (old, full, s) = place_new b.begin b.end es tmp fits filled room b files cnt e m in
            (
              insert_sorted (assign_value hash value time_stamp old)
                  (renew b.begin b.end es tmp fits filled room),
              full,
              renew-insert_sorted-Renews b.begin b.end es tmp fits filled room old e l m,
              s.0,
              s.1,
              reads ∙ s.2,
            )
      ]
