-- ===== src/Segment/Read.antt =====
-- Reading records back: `read_record` and `scan_segment` of crates/ozd-engine/src/segment.rs.
use ozd.Prelude.{
  ℕ, zero, suc, ◌+◌, ◌%◌, ◌^◌, ◌<◌, List, [], ◌∷◌, ◌++◌, ◌≡◌, refl, ◌∙◌, ap, none, some, true,
  false, arith, length, take, drop, ltb, ◌==◌, Bool-cases, Option-cases, inl, inr, length-append,
  length-drop, take-length-append, drop-length-append, drop-add, ==_refl,
}
use mathlib.Core.Path.{fun_ext}
use ozd.Io.{IoResult, ok, ◌>>=◌}
use ozd.Segment.{ParsedHeader, Record, header_len, parse_header, encode_record}
use ozd.Segment.Scan.{
  RecoveredRecord, recovered, total_len, read_exact, recover_loop, scan_segment, read_record,
}
use ozd.Segment.Recovery.{FitsRecord, record_len, header_of, drop_header_self, length-record}

read_exact_append :
    (n : ℕ) (xs ys : List ℕ) → length xs ≡ n → read_exact n (xs ++ ys) ≡ some (xs, ys)
unfolding read_exact
read_exact_append n xs ys e =
    rw (← e, take-length-append, drop-length-append) (ground (arith, length-append xs ys))

read_exact_full :
    (n : ℕ) (s : List ℕ) → ltb (length s) n ≡ false → read_exact n s ≡ some (take n s, drop n s)
unfolding read_exact
read_exact_full n s e = rw e

read_exact_short : (n : ℕ) (s : List ℕ) → ltb (length s) n ≡ true → read_exact n s ≡ none
unfolding read_exact
read_exact_short n s e = rw e

module _ (crc32 : List ℕ → ℕ) (crc_fits : (bs : List ℕ) → crc32 bs < 2 ^ 32) where
  pub read-record :
      (seg_id : ℕ) (before after : List ℕ) (r : Record)
      → FitsRecord r
      → read_record crc32
          (before ++ (encode_record crc32 r ++ after))
          (recovered seg_id (length before) (header_of crc32 crc_fits r) r.key r.stored).addr
          (crc32 (r.key ++ r.stored))
        ≡ ok r.stored
  unfolding read_record
  read-record seg_id before after r v =
      let kl : length r.key % 2 ^ 16 ≡ length r.key = omega (arith, v.key) in
      let sl : length r.stored % 2 ^ 32 ≡ length r.stored = omega (arith, v.stored) in
      rw
        (
          kl,
          sl,
          drop-length-append,
          read_record,
          read_exact_append (record_len r) (encode_record crc32 r) after
              (length-record crc32 crc_fits r),
          kl,
          drop-add header_len (length r.key),
          drop_header_self crc32 crc_fits r,
          take-length-append,
          drop-length-append,
          ==_refl,
        )
        refl

  -- Every callback of the scan in turn, until one fails.
  abbrev pub fold_records :
      {S : Type 0} → (RecoveredRecord → S → IoResult S) → List RecoveredRecord → S → IoResult S
  fold_records f [] s = ok s
  fold_records f (r ∷ rs) s = f r s >>= λ s'. fold_records f rs s'

  -- The three reads of a round succeed together exactly if the buffer holds the whole record.
  short_key :
      (h : ParsedHeader) (file : List ℕ)
      → ltb (length (drop header_len file)) h.key_len ≡ true
      → ltb (length file) (total_len h) ≡ true
  short_key h file e = ground (arith, length-drop header_len file)

  short_body :
      (h : ParsedHeader) (file : List ℕ)
      → ltb (length file) header_len ≡ false
      → ltb (length (drop header_len file)) h.key_len ≡ false
      → ltb (length (drop h.key_len (drop header_len file))) h.stored_len
        ≡ ltb (length file) (total_len h)
  short_body h file long e =
      ground (arith, length-drop header_len file, length-drop h.key_len (drop header_len file))

  module _ {S : Type 0} (f : RecoveredRecord → S → IoResult S) where
    scan_round :
        (fuel seg_id offset : ℕ) (file : List ℕ) (s : S)
        → ((o : ℕ) (b : List ℕ) (s' : S)
            → scan_segment crc32 f fuel seg_id o b s'
              ≡ fold_records f (recover_loop crc32 fuel seg_id o b).0 s')
        → (h : ParsedHeader) → ltb (length file) header_len ≡ false
        → parse_header (take header_len file) ≡ some h
        → ltb (length (drop header_len file)) h.key_len ≡ false
        → ltb (length file) (total_len h) ≡ false
        → scan_segment crc32 f (suc fuel) seg_id offset file s
          ≡ fold_records f (recover_loop crc32 (suc fuel) seg_id offset file).0 s
    unfolding scan_segment recover_loop
    scan_round fuel seg_id offset file s ih h long parsed key whole =
        rw
          (
            scan_segment,
            recover_loop,
            read_exact_full header_len file long,
            parsed,
            read_exact_full h.key_len (drop header_len file) key,
            read_exact_full h.stored_len (drop h.key_len (drop header_len file))
                (short_body h file long key ∙ whole),
            long,
            whole,
          )
          (elim (Bool-cases (
            crc32 (
              take h.key_len (drop header_len file)
              ++ take h.stored_len (drop h.key_len (drop header_len file)))
            == h.crc)) [
              | inl good ↦
                  rw
                    (
                      good,
                      drop-add (header_len + h.key_len) h.stored_len file,
                      drop-add header_len h.key_len file,
                    )
                    (ap
                      (λ k.
                        f
                          (recovered seg_id offset h (take h.key_len (drop header_len file))
                            (take h.stored_len (drop h.key_len (drop header_len file))))
                          s
                        >>= k)
                      (fun_ext (
                        ih (offset + total_len h)
                          (drop h.stored_len (drop h.key_len (drop header_len file))))))
              | inr bad ↦ rw bad refl
            ])

    -- The scan of a sealed segment hands its callback exactly the records that the recovery of the
    -- same bytes finds, in the same order, and stops where the callback fails.
    pub scan-eq-recover :
        (fuel seg_id offset : ℕ) (file : List ℕ) (s : S)
        → scan_segment crc32 f fuel seg_id offset file s
          ≡ fold_records f (recover_loop crc32 fuel seg_id offset file).0 s
    unfolding scan_segment recover_loop
    scan-eq-recover zero seg_id offset file s = refl
    scan-eq-recover (suc fuel) seg_id offset file s =
        elim (Bool-cases (ltb (length file) header_len)) [
          | inl short ↦
              rw (scan_segment, recover_loop, read_exact_short header_len file short, short) refl
          | inr long ↦ elim (Option-cases (parse_header (take header_len file))) [
            | inl bad ↦
                rw (scan_segment, recover_loop, read_exact_full header_len file long, long, bad)
                  refl
            | inr (h, good) ↦ elim (Bool-cases (ltb (length (drop header_len file)) h.key_len)) [
              | inl no_key ↦
                  rw
                    (
                      scan_segment,
                      recover_loop,
                      read_exact_full header_len file long,
                      good,
                      read_exact_short h.key_len (drop header_len file) no_key,
                      long,
                      short_key h file no_key,
                    )
                    refl
              | inr key ↦ elim (Bool-cases (ltb (length file) (total_len h))) [
                | inl no_body ↦
                    rw
                      (
                        scan_segment,
                        recover_loop,
                        read_exact_full header_len file long,
                        good,
                        read_exact_full h.key_len (drop header_len file) key,
                        read_exact_short h.stored_len (drop h.key_len (drop header_len file))
                            (short_body h file long key ∙ no_body),
                        long,
                        no_body,
                      )
                      refl
                | inr whole ↦
                    scan_round fuel seg_id offset file s (scan-eq-recover fuel seg_id) h long good
                      key whole
              ]
            ]
          ]
        ]
