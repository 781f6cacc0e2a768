-- ===== src/Storage/Daily/Ledger.antt =====
-- Each acknowledged batch stands in the file of its day, and nothing else stands in any file.
use otel_logger.Prelude.{
  ℕ, none, List, [], ◌++◌, Bool, true, false, ok, ◌>>=◌, ◌>>◌, bytes_eq, bytes_eq_refl,
  eq_of_bytes_eq, ◌≡◌, refl, ap, inl, inr, arith, Bool-cases, bind_rule, append-nil,
}
use otel_logger.Storage.File.{later, sync_all}
use otel_logger.Storage.Append.{TransactionalAppend, Tx}
use otel_logger.Storage.Append as Append
use otel_logger.Storage.Append.Rollback.{Holds, append-Holds, after}
use otel_logger.Storage.Append.Rollback as Rollback
use otel_logger.Storage.Tail.{recover_tail}
use otel_logger.Storage.Tail.Search.{IsComplete}
use otel_logger.Storage.Tail.Recovery.{bytes-recover_tail_err}
use otel_logger.Storage.Daily.{
  FilePath, Disk, AppendFile, NaiveDate, Session, on_path, open_file, open_append, transaction,
  on_writer, path_at, sync_before, switch_to, reopen, rotate,
}

-- What was acknowledged, by file.
abbrev pub Ledger : Type 0
Ledger = FilePath → List ℕ

abbrev pub Settled : Ledger → Disk → Type 0
Settled log d = (p : FilePath) → (d.file p).bytes ≡ log p

pub record IsLedger (log : Ledger) (s : Session) : Type 0 where
  pub lines : (p : FilePath) → IsComplete (log p)
  pub current : Holds (log s.writer.file.path) (transaction s)
  pub others :
      (p : FilePath) → bytes_eq s.writer.file.path p ≡ false → (s.disk.file p).bytes ≡ log p

module _ (log : Ledger) (lines : (p : FilePath) → IsComplete (log p)) (q : FilePath) (d : Disk)
    (h : Settled log d) where
  Settled-recover_tail : Settled log (on_path q recover_tail d).1
  Settled-recover_tail p = elim (Bool-cases (bytes_eq q p)) [
    | inl same ↦
        let e : q ≡ p = eq_of_bytes_eq q p same in
        let stored : (d.file q).bytes ≡ log q ++ [] = rw append-nil (h q) in
        elim (bytes-recover_tail_err (log q) [] (d.file q) (lines q) tt stored) [
          | inl kept ↦ ground (arith, h q)
          | inr cut ↦ ground arith
        ]
    | inr other ↦ ground (arith, h p)
  ]

Settled-sync_all :
    (log : Ledger) (q : FilePath) (d : Disk) → Settled log d → Settled log (on_path q sync_all d).1
unfolding sync_all
Settled-sync_all log q d h p = elim (Bool-cases (bytes_eq q p)) [
  | inl same ↦ let e : q ≡ p = eq_of_bytes_eq q p same in ground (arith, h q)
  | inr other ↦ ground (arith, h p)
]

pub Settled-open_append :
    (log : Ledger)
    → ((p : FilePath) → IsComplete (log p))
    → (q : FilePath) (d : Disk) → Settled log d
    → Settled log (open_append q d).1
unfolding open_append open_file
Settled-open_append log lines q d h p =
    ground
      (arith, h p, Settled-recover_tail log lines q (record d { openings = later d.openings }) h p)

pub open_append_ok :
    (q : FilePath) (d : Disk) (f : AppendFile)
    → (open_append q d).0 ≡ ok f
    → f ≡ record { path = q; rollback = none }
unfolding open_append open_file
open_append_ok q d f e = ground arith

-- A call on the current file that leaves it at the ledger's next value.
pub on_writer-IsLedger :
    (log log' : Ledger) (m : Tx Unit) (s : Session)
    → IsLedger log s
    → ((p : FilePath) → IsComplete (log' p))
    → ((p : FilePath) → bytes_eq s.writer.file.path p ≡ false → log' p ≡ log p)
    → Holds (log' s.writer.file.path) (m (transaction s)).1
    → IsLedger log' (on_writer m s).1
on_writer-IsLedger log log' m s h lines same now = record {
  lines = lines;
  current = rw bytes_eq_refl now;
  others = λ p ne. rw (ne, same p ne) (h.others p ne);
}

abbrev pub path_now : Session → FilePath
path_now s = s.writer.file.path

repair-IsLedger :
    (log : Ledger) (s : Session) → IsLedger log s → IsLedger log (on_writer Append.repair s).1
repair-IsLedger log s h =
    on_writer-IsLedger log log Append.repair s h h.lines (λ p e. refl)
      (Rollback.repair-Holds (log (path_now s)) (transaction s) h.current)

-- After a repair that succeeded every file is as the ledger says.
pub repair-Settled :
    (log : Ledger) (s : Session)
    → IsLedger log s
    → (on_writer Append.repair s).0 ≡ ok tt
    → Settled log (on_writer Append.repair s).1.disk
repair-Settled log s h e p = elim (Bool-cases (bytes_eq (path_now s) p)) [
  | inl same ↦
      let same' : path_now s ≡ p = eq_of_bytes_eq (path_now s) p same in
      rw (same, ← same') (Rollback.repair_ok (log (path_now s)) (transaction s) h.current e).1
  | inr other ↦ rw other (h.others p other)
]

-- With all files settled, a writer with no pending rollback is in order.
IsLedger-of_Settled :
    (log : Ledger) (s : Session)
    → ((p : FilePath) → IsComplete (log p))
    → Settled log s.disk
    → s.writer.file.rollback ≡ none
    → IsLedger log s
IsLedger-of_Settled log s lines h e = record {
  lines = lines;
  current = rw e (h s.writer.file.path);
  others = λ p ne. h p;
}

module _ (date_text : NaiveDate → List ℕ) where
  sync_before-Settled :
      (log : Ledger) (b : Bool) (s : Session)
      → Settled log s.disk
      → Settled log (sync_before date_text b s).1.disk
  unfolding sync_before
  sync_before-Settled log true s h = Settled-sync_all log s.writer.file.path s.disk h
  sync_before-Settled log false s h = h

  pub writer-sync_before :
      (b : Bool) (s : Session) → (sync_before date_text b s).1.writer ≡ s.writer
  unfolding sync_before
  writer-sync_before true s = refl
  writer-sync_before false s = refl

  -- The open file is that of the writer's date.
  abbrev pub IsPlaced : Session → Type 0
  IsPlaced s = path_now s ≡ path_at date_text s.writer s.writer.date

  -- The rotation keeps this, whichever of its calls fails.
  pub rotate-IsPlaced :
      (date : NaiveDate) (s : Session) → IsPlaced s → IsPlaced (rotate date_text date s).1
  unfolding rotate reopen switch_to sync_before
  rotate-IsPlaced date s h =
      let s1 = (on_writer Append.repair s).1 in
      let b = s1.writer.sync_on_rotate in
      let s2 = (sync_before date_text b s1).1 in
      let same = writer-sync_before b s1 in
      let placed : IsPlaced s2 = rw same h in
      bind_rule IsPlaced (on_writer Append.repair) _ s (λ x p. h)
        (λ _ p.
          bind_rule IsPlaced (λ s'. sync_before date_text s'.writer.sync_on_rotate s') _ s1
            (λ x q. placed)
            (λ _ q.
              bind_rule IsPlaced (reopen date_text date) (switch_to date_text date) s2
                (λ x r. placed)
                (λ f r. ap (λ (a : AppendFile). a.path) (open_append_ok _ s2.disk f r))))

  module _ (log : Ledger) (lines : (p : FilePath) → IsComplete (log p)) (date : NaiveDate) where
    reopen-IsLedger :
        (s : Session)
        → Settled log s.disk
        → s.writer.file.rollback ≡ none
        → IsLedger log ((do file ← reopen date_text date; switch_to date_text date file) s).1
    unfolding reopen switch_to
    reopen-IsLedger s h e =
        let q = path_at date_text s.writer date in
        let settled = Settled-open_append log lines q s.disk h in
        bind_rule (IsLedger log) (reopen date_text date) (switch_to date_text date) s
          (λ x p. IsLedger-of_Settled log _ lines settled e)
          (λ f p.
            IsLedger-of_Settled log _ lines settled (ground (arith, open_append_ok q s.disk f p)))

    synced-IsLedger :
        (s : Session)
        → Settled log s.disk
        → s.writer.file.rollback ≡ none
        → IsLedger log
            ((do
              λ s'. sync_before date_text s'.writer.sync_on_rotate s'
              file ← reopen date_text date
              switch_to date_text date file)
              s).1
    synced-IsLedger s h e =
        let b = s.writer.sync_on_rotate in
        let settled = sync_before-Settled log b s h in
        let clean : (sync_before date_text b s).1.writer.file.rollback ≡ none =
          rw (writer-sync_before b s) e in
        bind_rule (IsLedger log) (λ s'. sync_before date_text s'.writer.sync_on_rotate s')
          (λ _. do file ← reopen date_text date; switch_to date_text date file) s
          (λ x p. IsLedger-of_Settled log _ lines settled clean)
          (λ _ p. reopen-IsLedger _ settled clean)

  -- The rotation keeps the ledger, whichever of its calls fails.
  pub rotate-IsLedger :
      (log : Ledger) (date : NaiveDate) (s : Session)
      → IsLedger log s
      → IsLedger log (rotate date_text date s).1
  unfolding rotate
  rotate-IsLedger log date s h =
      bind_rule (IsLedger log) (on_writer Append.repair) _ s (λ x p. repair-IsLedger log s h)
        (λ _ p.
          synced-IsLedger log h.lines date _ (repair-Settled log s h p)
            (Rollback.repair_ok (log (path_now s)) (transaction s) h.current p).0)
