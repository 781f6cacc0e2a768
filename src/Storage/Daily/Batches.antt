-- ===== src/Storage/Daily/Batches.antt =====
-- `append_at`: the batch goes to the file of its date, and to no other.
use otel_logger.Prelude.{
  ℕ, List, ◌++◌, Bool, true, false, not, ◌==◌, Result, ok, err, bytes_eq, bytes_eq_refl, update,
  ◌≡◌, refl, ap, ◌∙◌, inl, inr, arith, Bool-cases, Result-cases, append-nil,
}
use otel_logger.Storage.File.{IoError}
use otel_logger.Storage.Append as Append
use otel_logger.Storage.Append.Rollback.{append-Holds}
use otel_logger.Storage.Tail.Search.{IsComplete, IsComplete-append}
use otel_logger.Storage.Daily.{
  FilePath, AppendFile, NaiveDate, Session, open_append, transaction, on_writer, path_at,
  sync_before, switch_to, reopen, rotate, rotate_if, append_at,
}
use otel_logger.Storage.Daily.Ledger.{
  Ledger, IsLedger, IsPlaced, path_now, rotate-IsLedger, rotate-IsPlaced, on_writer-IsLedger,
  open_append_ok, writer-sync_before,
}

-- The ledger after a call: the batch is added to the file at the path if it was acknowledged.
abbrev pub entered : Ledger → FilePath → List ℕ → Result IoError Unit → Ledger
entered log path bytes (ok _) = update log path (log path ++ bytes)
entered log path bytes (err _) = log

append-IsLedger :
    (log : Ledger) (bytes : List ℕ) (s : Session)
    → IsLedger log s
    → IsComplete bytes
    → IsLedger
        (entered log (path_now s) bytes (on_writer (Append.append bytes) s).0)
        (on_writer (Append.append bytes) s).1
append-IsLedger log bytes s h c = by_result (Append.append bytes (transaction s)).0 refl
  where
    path : FilePath
    path = path_now s

    by_result :
        (r : Result IoError Unit)
        → (Append.append bytes (transaction s)).0 ≡ r
        → IsLedger (entered log path bytes r) (on_writer (Append.append bytes) s).1
    by_result (ok u) e =
        on_writer-IsLedger log (entered log path bytes (ok u)) (Append.append bytes) s h
          (λ p. elim (Bool-cases (bytes_eq path p)) [
            | inl same ↦ rw same (IsComplete-append (log path) bytes (h.lines path) c)
            | inr other ↦ rw other (h.lines p)
          ])
          (λ p ne. rw ne)
          (rw (bytes_eq_refl path)
            (rw e at (append-Holds (log path) bytes (transaction s) h.current)))
    by_result (err x) e =
        on_writer-IsLedger log log (Append.append bytes) s h h.lines (λ p ne. refl)
          (rw (e, append-nil) at (append-Holds (log path) bytes (transaction s) h.current))

module _ (date_text : NaiveDate → List ℕ) where
  reopen_ok :
      (date : NaiveDate) (s : Session) (f : AppendFile)
      → (reopen date_text date s).0 ≡ ok f
      → f.path ≡ path_at date_text s.writer date
  unfolding reopen
  reopen_ok date s f e = ap (λ (a : AppendFile). a.path) (open_append_ok _ s.disk f e)

  path-rotate :
      (date : NaiveDate) (s : Session)
      → (rotate date_text date s).0 ≡ ok tt
      → path_now (rotate date_text date s).1 ≡ path_at date_text s.writer date
  unfolding rotate switch_to reopen
  path-rotate date s e =
      let s1 = (on_writer Append.repair s).1 in
      let b = s1.writer.sync_on_rotate in
      let s2 = (sync_before date_text b s1).1 in
      let q = path_at date_text s2.writer date in
      elim (Result-cases (open_append q s2.disk).0) [
        | inl (f, p) ↦
            ground (arith, open_append_ok q s2.disk f p, writer-sync_before date_text b s1)
        | inr (x, p) ↦ absurd (ground arith)
      ]

  path-rotate_if :
      (date : NaiveDate) (s : Session)
      → IsPlaced date_text s
      → (rotate_if date_text (not (s.writer.date == date)) date s).0 ≡ ok tt
      → path_now (rotate_if date_text (not (s.writer.date == date)) date s).1
        ≡ path_at date_text s.writer date
  unfolding rotate_if
  path-rotate_if date s h e = elim (Bool-cases (s.writer.date == date)) [
    | inl same ↦
        let d : s.writer.date ≡ date = ground arith in
        rw same (h ∙ ap (path_at date_text s.writer) d)
    | inr other ↦ rw other (path-rotate date s (rw other at e))
  ]

  rotate_if-IsLedger :
      (log : Ledger) (b : Bool) (date : NaiveDate) (s : Session)
      → IsLedger log s
      → IsLedger log (rotate_if date_text b date s).1
  unfolding rotate_if
  rotate_if-IsLedger log true date s h = rotate-IsLedger date_text log date s h
  rotate_if-IsLedger log false date s h = h

  rotate_if-IsPlaced :
      (b : Bool) (date : NaiveDate) (s : Session)
      → IsPlaced date_text s
      → IsPlaced date_text (rotate_if date_text b date s).1
  unfolding rotate_if
  rotate_if-IsPlaced true date s h = rotate-IsPlaced date_text date s h
  rotate_if-IsPlaced false date s h = h

  -- From a writer in order with its file open at its date, and for a batch of whole lines, whatever
  -- the date and whichever calls fail: a call that answers Ok adds exactly its batch to what was
  -- acknowledged in the file of the date, one that answers an error adds nothing, every other file
  -- holds exactly what was acknowledged in it, and the writer is in order again with its file open
  -- at the date that it has now.
  pub append_at-IsLedger :
      (log : Ledger) (bytes : List ℕ) (date : NaiveDate) (s : Session)
      → IsLedger log s
      → IsPlaced date_text s
      → IsComplete bytes
      → IsLedger
          (entered log (path_at date_text s.writer date) bytes (append_at date_text bytes date s).0)
          (append_at date_text bytes date s).1
        × IsPlaced date_text (append_at date_text bytes date s).1
  unfolding append_at
  append_at-IsLedger log bytes date s h placed c =
      let r = rotate_if date_text (not (s.writer.date == date)) date s in
      let kept = rotate_if-IsLedger log (not (s.writer.date == date)) date s h in
      let still = rotate_if-IsPlaced (not (s.writer.date == date)) date s placed in
      elim (Result-cases r.0) [
        | inl (u, p) ↦ (
          rw p (rw (← path-rotate_if date s placed p) (append-IsLedger log bytes r.1 kept c)),
          rw p still,
        )
        | inr (x, p) ↦ (rw p kept, rw p still)
      ]
