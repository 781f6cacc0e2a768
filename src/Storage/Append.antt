-- ===== src/Storage/Append.antt =====
-- `TransactionalAppend` of src/storage.rs.
pub mod Rollback
use otel_logger.Prelude.{
  ℕ, Option, none, some, List, [], ◌∷◌, ◌++◌, Result, ok, err, Action, ◌>>=◌, ◌>>◌, pure,
}
use otel_logger.Storage.File.{File, IoError, Io, metadata_len, set_len, seek, write_all, flush}

-- `append_start` on the systems that are not Windows.
unfoldable pub append_start : Io ℕ
append_start = metadata_len

unfoldable pub truncate : ℕ → Io Unit
truncate len = do set_len len; seek len; pure tt

pub record TransactionalAppend : Type 0 where
  pub file : File
  pub rollback : Option ℕ

abbrev pub Tx : Type 0 → Type 0
Tx A = Action TransactionalAppend IoError A

-- A call on the field `file`.
abbrev pub on_file : {A : Type 0} → Io A → Tx A
on_file m t = ((m t.file).0, record t { file = (m t.file).1 })

unfoldable pub set_rollback : Option ℕ → Tx Unit
set_rollback r t = (ok tt, record t { rollback = r })

unfoldable pub undo : Option ℕ → Tx Unit
undo none = pure tt
undo (some start) = do on_file (truncate start); set_rollback none

unfoldable pub repair : Tx Unit
repair t = undo t.rollback t

-- The error path of `append`: `if self.file.truncate(start).is_ok()` drops the error.
unfoldable pub cleared : Result IoError Unit → Tx Unit
cleared (ok _) = set_rollback none
cleared (err _) = pure tt

unfoldable pub roll_back : ℕ → Tx Unit
roll_back start t =
    let t' = record t { rollback = some start } in
    let s = on_file (truncate start) t' in cleared s.0 s.1

unfoldable pub on_written : ℕ → Result IoError Unit → Tx Unit
on_written start (ok _) t = (ok tt, t)
on_written start (err error) t = (err error, (roll_back start t).1)

-- `self.file.write_all(bytes).and_then(|()| self.file.flush())`
unfoldable pub write_and_flush : List ℕ → Io Unit
write_and_flush bytes = do write_all bytes; flush

unfoldable pub write_from : List ℕ → ℕ → Tx Unit
write_from bytes start t = let w = on_file (write_and_flush bytes) t in on_written start w.0 w.1

unfoldable pub append : List ℕ → Tx Unit
append bytes = do repair; start ← on_file append_start; write_from bytes start

-- A run of appends, with the batches that were acknowledged (answered `Ok`).
abbrev pub acknowledged : List ℕ → Result IoError Unit → List ℕ
acknowledged bytes (ok _) = bytes
acknowledged bytes (err _) = []

-- The bytes of the acknowledged batches, in order, and the last state.
unfoldable pub append_all : List (List ℕ) → TransactionalAppend → List ℕ × TransactionalAppend
append_all [] t = ([], t)
append_all (b ∷ bs) t =
    let rest = append_all bs (append b t).1 in (acknowledged b (append b t).0 ++ rest.0, rest.1)
