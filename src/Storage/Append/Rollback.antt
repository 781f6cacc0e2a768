-- ===== src/Storage/Append/Rollback.antt =====
-- No append of src/storage.rs leaves part of a batch for the next one to follow.
use otel_logger.Prelude.{
  ℕ, ◌≤◌, Option, none, some, List, [], ◌∷◌, ◌++◌, ◌≡◌, refl, inl, inr, ap, Result, ok, length,
  take, take-take, take-append, length-take, append_assoc, append-nil, arith,
}
use otel_logger.Storage.File.{
  File, IoError, metadata_len, set_len, seek, write_all, flush, resize-le, Fault-cases, next, later,
}
use otel_logger.Storage.Append.{
  TransactionalAppend, truncate, append_start, set_rollback, undo, repair, cleared, roll_back,
  on_written, write_and_flush, write_from, append, acknowledged, append_all,
}

-- With no rollback pending the bytes are the log; with one pending, they are once they are cut.
abbrev pub HoldsAt : List ℕ → List ℕ → Option ℕ → Type 0
HoldsAt log bytes none = bytes ≡ log
HoldsAt log bytes (some start) = (start ≡ length log) × (take start bytes ≡ log)

abbrev pub Holds : List ℕ → TransactionalAppend → Type 0
Holds log t = HoldsAt log t.file.bytes t.rollback

-- `truncate` cuts the file when it succeeds, and when it fails the kept part is still there.
bytes-truncate_ok :
    (n : ℕ) (f : File)
    → n ≤ length f.bytes
    → (truncate n f).0 ≡ ok tt
    → (truncate n f).1.bytes ≡ take n f.bytes
unfolding truncate set_len seek
bytes-truncate_ok n f h e = ground (arith, resize-le n f.bytes)

take-truncate :
    (n : ℕ) (f : File) → n ≤ length f.bytes → take n (truncate n f).1.bytes ≡ take n f.bytes
unfolding truncate set_len seek
take-truncate n f h = ground (arith, resize-le n f.bytes, take-take n f.bytes)

within :
    (log : List ℕ) (n : ℕ) (bytes : List ℕ) → n ≡ length log → take n bytes ≡ log → n ≤ length bytes
within log n bytes e h = omega (arith, length-take n bytes, ap (length {0}) h)

undo-Holds :
    (log : List ℕ) (r : Option ℕ) (t : TransactionalAppend)
    → t.rollback ≡ r
    → HoldsAt log t.file.bytes r
    → Holds log (undo r t).1
unfolding undo set_rollback
undo-Holds log none t e h = rw e h
undo-Holds log (some s) t e h =
    ground (arith, within log s t.file.bytes, take-truncate s t.file, bytes-truncate_ok s t.file)

undo_ok :
    (log : List ℕ) (r : Option ℕ) (t : TransactionalAppend)
    → t.rollback ≡ r
    → HoldsAt log t.file.bytes r
    → (undo r t).0 ≡ ok tt
    → ((undo r t).1.rollback ≡ none) × ((undo r t).1.file.bytes ≡ log)
unfolding undo set_rollback
undo_ok log none t e h k = (e, h)
undo_ok log (some s) t e h k =
    ground (arith, within log s t.file.bytes, take-truncate s t.file, bytes-truncate_ok s t.file)

roll_back-Holds :
    (log : List ℕ) (t : TransactionalAppend) (start : ℕ)
    → start ≡ length log
    → take start t.file.bytes ≡ log
    → Holds log (roll_back start t).1
unfolding roll_back cleared set_rollback
roll_back-Holds log t s e h =
    ground (arith, within log s t.file.bytes, take-truncate s t.file, bytes-truncate_ok s t.file)

-- What a finished call leaves: the batch after the log when it answered `Ok`, else the log.
abbrev pub after : List ℕ → List ℕ → Result IoError Unit → List ℕ
after log batch r = log ++ acknowledged batch r

write_and_flush_ok :
    (bs : List ℕ) (f : File)
    → (write_and_flush bs f).0 ≡ ok tt
    → (write_and_flush bs f).1.bytes ≡ f.bytes ++ bs
unfolding write_and_flush write_all flush
write_and_flush_ok bs f e = ground arith

-- A failed write leaves some part of the batch behind what was there.
take-write_and_flush :
    (bs : List ℕ) (f : File) → take (length f.bytes) (write_and_flush bs f).1.bytes ≡ f.bytes
unfolding write_and_flush write_all flush
take-write_and_flush bs f = elim (Fault-cases (next f.faults)) [
  | inl e ↦ ground (arith, take-append f.bytes bs)
  | inr (n, e) ↦ ground (arith, take-append f.bytes (take n bs))
]

write_from-Holds :
    (log bs : List ℕ) (t : TransactionalAppend)
    → t.rollback ≡ none
    → t.file.bytes ≡ log
    → Holds (after log bs (write_from bs (length log) t).0) (write_from bs (length log) t).1
unfolding write_from on_written
write_from-Holds log bs t e h = ground (
  arith,
  write_and_flush_ok bs t.file,
  take-write_and_flush bs t.file,
  append-nil log,
  roll_back-Holds log (record t { file = (write_and_flush bs t.file).1 }) (length log) refl,
)

-- Whatever the system answers, `append` leaves the log with the batch if it answers `Ok`, and
-- without any part of it if it answers an error.
pub append-Holds :
    (log bs : List ℕ) (t : TransactionalAppend)
    → Holds log t
    → Holds (after log bs (append bs t).0) (append bs t).1
unfolding append repair append_start metadata_len
append-Holds log bs t h = ground (
  arith,
  undo-Holds log t.rollback t refl h,
  undo_ok log t.rollback t refl h,
  append-nil log,
  write_from-Holds log bs (record ((undo t.rollback t).1) {
    file = record (undo t.rollback t).1.file { faults = later (undo t.rollback t).1.file.faults };
  }),
)

pub append_all-Holds :
    (log : List ℕ) (batches : List (List ℕ)) (t : TransactionalAppend)
    → Holds log t
    → Holds (log ++ (append_all batches t).0) (append_all batches t).1
unfolding append_all
append_all-Holds log [] t h = rw append-nil h
append_all-Holds log (b ∷ bs) t h =
    rw (← append_assoc log (acknowledged b (append b t).0) (append_all bs (append b t).1).0)
      (append_all-Holds (after log b (append b t).0) bs (append b t).1 (append-Holds log b t h))

-- Once a repair succeeds the file is the log and the acknowledged batches, byte for byte.
pub repair-append_all :
    (log : List ℕ) (batches : List (List ℕ)) (t : TransactionalAppend)
    → Holds log t
    → (repair (append_all batches t).1).0 ≡ ok tt
    → (repair (append_all batches t).1).1.file.bytes ≡ log ++ (append_all batches t).0
unfolding repair
repair-append_all log batches t h e =
    let t' = (append_all batches t).1 in
    (undo_ok (log ++ (append_all batches t).0) t'.rollback t' refl
      (append_all-Holds log batches t h) e).1

module _ (log : List ℕ) (t : TransactionalAppend) (h : Holds log t) where
  pub repair-Holds : Holds log (repair t).1
  unfolding repair
  repair-Holds = undo-Holds log t.rollback t refl h

  pub repair_ok :
      (repair t).0 ≡ ok tt → ((repair t).1.rollback ≡ none) × ((repair t).1.file.bytes ≡ log)
  unfolding repair
  repair_ok = undo_ok log t.rollback t refl h
