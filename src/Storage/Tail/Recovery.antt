-- ===== src/Storage/Tail/Recovery.antt =====
-- The loop of `recover_tail`: what it finds, that it ends, and what is left of the file.
use otel_logger.Prelude.{
  ℕ, zero, suc, ◌+◌, ◌-◌, ◌≤◌, ◌<◌, List, [], ◌++◌, ◌==◌, ok, err, err_ok, Result, ◌≡◌, refl, ◌⊎◌,
  inl, inr, Bool-cases, Option-cases, Result-cases, arith, length, take, drop, ap, sym, take-append,
  take-length, drop-length,
}
use otel_logger.Storage.File.{
  File, IoError, out_of_fuel, Io, metadata_len, seek, read_exact, set_len, later, resize-le,
}
use otel_logger.Storage.Append.{truncate}
use otel_logger.Storage.Tail.{chunk, rposition, read_back, found, find_end, cut_at, recover_tail}
use otel_logger.Storage.Tail.Search.{
  IsLineEnd-unique, EndsLine-le, IsLineEnd-append, NoNewline, EndsLine, IsLineEnd, rposition-none,
  rposition-some, torn-buffer, buffer, IsLineEnd-buffer,
}

module _ (start n : ℕ) (f : File) where
  bytes-read_back : (read_back start n f).1.bytes ≡ f.bytes
  unfolding read_back seek read_exact
  bytes-read_back = ground arith

  read_back_ok :
      (buf : List ℕ) → (read_back start n f).0 ≡ ok buf → buf ≡ take n (drop start f.bytes)
  unfolding read_back seek read_exact
  read_back_ok buf e = ground arith

  read_back_ends : ¬ ((read_back start n f).0 ≡ err out_of_fuel)
  unfolding read_back seek read_exact
  read_back_ends e = ground arith

  read_back_total :
      f.faults ≡ []
      → start + n ≤ length f.bytes
      → ((read_back start n f).0 ≡ ok (take n (drop start f.bytes)))
        × ((read_back start n f).1.faults ≡ [])
  unfolding read_back seek read_exact
  read_back_total e h = ground arith

bytes-find_end : (size fuel end : ℕ) (f : File) → (find_end size fuel end f).1.bytes ≡ f.bytes
unfolding find_end found
bytes-find_end size zero end f = refl
bytes-find_end size (suc fuel) end f = ground (
  arith,
  bytes-read_back (end - size) (end - (end - size)) f,
  bytes-find_end size fuel (end - size) (read_back (end - size) (end - (end - size)) f).1,
)

found_sound :
    (bs : List ℕ) (start end : ℕ) (order : start ≤ end)
    → NoNewline (drop end bs)
    → (again : Io ℕ) (f : File) (n : ℕ)
    → ((again f).0 ≡ ok n → NoNewline (drop start bs) → IsLineEnd bs n)
    → (found start (rposition (buffer bs start end order)) again f).0 ≡ ok n
    → IsLineEnd bs n
unfolding found
found_sound bs start end order h again f n rec e =
    elim (Option-cases (rposition (buffer bs start end order))) [
      | inl miss ↦ rec (ground arith) (torn-buffer bs start end order (rposition-none _ miss) h)
      | inr (i, hit) ↦
          let p : start + i + 1 ≡ n = ground arith in
          rw (← p) (IsLineEnd-buffer bs start end order i (rposition-some _ i hit) h)
    ]

at_zero : (bs : List ℕ) (end n : ℕ) → end ≡ 0 → n ≡ 0 → NoNewline (drop end bs) → IsLineEnd bs n
at_zero bs end n z e t = rw e (record { complete = tt; torn = rw z at t })

-- Where the search answers, the answer is the end of the last line.
find_end_sound :
    (size fuel end : ℕ) (f : File) (n : ℕ)
    → end ≤ length f.bytes
    → NoNewline (drop end f.bytes)
    → (find_end size fuel end f).0 ≡ ok n
    → IsLineEnd f.bytes n
unfolding find_end
find_end_sound size zero end f n b t e = cc
find_end_sound size (suc fuel) end f n b t e = elim (Bool-cases (end == 0)) [
  | inl z ↦ at_zero f.bytes end n (ground arith) (ground arith) t
  | inr nz ↦
      let start = end - size in
      let r = read_back start (end - start) f in
      elim (Result-cases r.0) [
        | inl (buf, good) ↦
            found_sound f.bytes start end (omega arith) t (find_end size fuel start) r.1 n
              (λ rec u. rw (← bytes-read_back start (end - start) f) (
                find_end_sound size fuel start r.1 n
                  (rw (bytes-read_back start (end - start) f) (omega arith))
                  (rw (bytes-read_back start (end - start) f) u) rec))
              (rw (← read_back_ok start (end - start) f buf good) (ground arith))
        | inr (x, bad) ↦ absurd (ground arith)
      ]
]

-- A search with a buffer that holds something ends by its own tests, whichever calls fail.
find_end_ends :
    (size fuel end : ℕ) (f : File)
    → 0 < size
    → end < fuel
    → ¬ ((find_end size fuel end f).0 ≡ err out_of_fuel)
unfolding find_end found
find_end_ends size zero end f pos b e = absurd (omega arith)
find_end_ends size (suc fuel) end f pos b e =
    let start = end - size in
    let r = read_back start (end - start) f in
    elim (Bool-cases (end == 0)) [
      | inl z ↦ err_ok (sym (rw z at e))
      | inr nz ↦ elim (Result-cases r.0) [
        | inr (x, p) ↦ read_back_ends start (end - start) f (ground arith)
        | inl (buf, p) ↦ elim (Option-cases (rposition buf)) [
          | inl miss ↦ find_end_ends size fuel start r.1 pos (ground arith) (ground arith)
          | inr (i, hit) ↦ ground arith
        ]
      ]
    ]

-- A search that no call stops answers.
find_end_total :
    (size fuel end : ℕ) (f : File)
    → 0 < size
    → end < fuel
    → f.faults ≡ []
    → end ≤ length f.bytes
    → (n : ℕ) × ((find_end size fuel end f).0 ≡ ok n) × ((find_end size fuel end f).1.faults ≡ [])
unfolding find_end found
find_end_total size zero end f pos lt e b = absurd (omega arith)
find_end_total size (suc fuel) end f pos lt e b =
    let start = end - size in
    let r = read_back start (end - start) f in
    let (good, none_left) = read_back_total start (end - start) f e (omega arith) in
    elim (Bool-cases (end == 0)) [
      | inl z ↦ (0, ground arith, ground arith)
      | inr nz ↦
          let (n, p, q) =
            find_end_total size fuel start r.1 pos (ground arith) none_left
              (rw (bytes-read_back start (end - start) f) (omega arith)) in
          elim (Option-cases (rposition (take (end - start) (drop start f.bytes)))) [
            | inl miss ↦ (n, ground arith, ground arith)
            | inr (i, hit) ↦ (start + i + 1, ground arith, ground arith)
          ]
    ]

module _ (n len : ℕ) (f : File) (whole : len ≡ length f.bytes) (order : n ≤ len) where
  cut_at_ok : (cut_at n len f).0 ≡ ok tt → (cut_at n len f).1.bytes ≡ take n f.bytes
  unfolding cut_at truncate set_len seek
  cut_at_ok e = ground (arith, resize-le n f.bytes, take-length f.bytes)

  cut_at_err : ((cut_at n len f).1.bytes ≡ f.bytes) ⊎ ((cut_at n len f).1.bytes ≡ take n f.bytes)
  unfolding cut_at truncate set_len seek
  cut_at_err = ground (arith, resize-le n f.bytes, take-length f.bytes)

  cut_at_total : f.faults ≡ [] → (cut_at n len f).0 ≡ ok tt
  unfolding cut_at truncate set_len seek
  cut_at_total e = ground arith

-- The loop of the recovery ends, and never for want of fuel, whatever the file holds and whichever
-- calls fail.
pub recover_tail_ends : (f : File) → ¬ ((recover_tail f).0 ≡ err out_of_fuel)
unfolding recover_tail metadata_len cut_at truncate set_len seek
recover_tail_ends f e =
    let g : File = record f { faults = later f.faults } in
    let len = length f.bytes in
    let s = find_end chunk (suc len) len g in
    elim (Result-cases s.0) [
      | inl (n, p) ↦ ground arith
      | inr (x, p) ↦ ground (arith, find_end_ends chunk (suc len) len g (omega arith) (omega arith))
    ]

-- Complete lines, and behind them a torn one that was never acknowledged.
module _ (log part : List ℕ) (f : File) (complete : EndsLine (length log) log)
    (torn : NoNewline part) (stored : f.bytes ≡ log ++ part) where
  start_of_torn : (n : ℕ) → IsLineEnd f.bytes n → take n f.bytes ≡ log
  start_of_torn n h =
      let e : n ≡ length log =
        IsLineEnd-unique n (length log) (log ++ part) (rw stored at h)
          (IsLineEnd-append log part complete torn) in
      rw (e, stored) (take-append log part)

  abbrev opened : File
  opened = record f { faults = later f.faults }

  abbrev searched : Result IoError ℕ × File
  searched = find_end chunk (suc (length f.bytes)) (length f.bytes) opened

  bytes-searched : searched.1.bytes ≡ f.bytes
  bytes-searched = bytes-find_end chunk (suc (length f.bytes)) (length f.bytes) opened

  search_finds : (n : ℕ) → searched.0 ≡ ok n → IsLineEnd f.bytes n
  search_finds n e =
      find_end_sound chunk (suc (length f.bytes)) (length f.bytes) opened n (omega arith)
        (rw (drop-length f.bytes) tt) e

  line_end-le : (n : ℕ) → searched.0 ≡ ok n → n ≤ length f.bytes
  line_end-le n e = EndsLine-le n f.bytes (search_finds n e).complete

  same_length : length f.bytes ≡ length searched.1.bytes
  same_length = ap length (sym bytes-searched)

  -- Where the recovery answers `Ok`, exactly the torn line is gone.
  pub bytes-recover_tail : (recover_tail f).0 ≡ ok tt → (recover_tail f).1.bytes ≡ log
  unfolding recover_tail metadata_len
  bytes-recover_tail e = elim (Result-cases searched.0) [
    | inl (n, p) ↦ ground (
      arith,
      start_of_torn n (search_finds n p),
      bytes-searched,
      cut_at_ok n (length f.bytes) searched.1 same_length (line_end-le n p),
    )
    | inr (x, p) ↦ absurd (ground arith)
  ]

  -- Where it answers an error, at most the torn line is gone.
  pub bytes-recover_tail_err :
      ((recover_tail f).1.bytes ≡ f.bytes) ⊎ ((recover_tail f).1.bytes ≡ log)
  unfolding recover_tail metadata_len
  bytes-recover_tail_err = elim (Result-cases searched.0) [
    | inl (n, p) ↦ ground (
      arith,
      start_of_torn n (search_finds n p),
      bytes-searched,
      cut_at_err n (length f.bytes) searched.1 same_length (line_end-le n p),
    )
    | inr (x, p) ↦ ground (arith, bytes-searched)
  ]

  -- It answers `Ok` when no call fails.
  pub recover_tail_total : f.faults ≡ [] → (recover_tail f).0 ≡ ok tt
  unfolding recover_tail metadata_len
  recover_tail_total e =
      let (n, p, q) =
        find_end_total chunk (suc (length f.bytes)) (length f.bytes) opened (omega arith)
          (omega arith) (ground arith) (omega arith) in
      ground (arith, cut_at_total n (length f.bytes) searched.1 same_length (line_end-le n p) q)
