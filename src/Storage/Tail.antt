-- ===== src/Storage/Tail.antt =====
-- `recover_tail` of src/storage.rs: on open, what follows the last newline is cut.
pub mod Search
pub mod Recovery
use otel_logger.Prelude.{
  ℕ, zero, suc, ◌+◌, ◌-◌, Option, none, some, List, [], ◌∷◌, ◌==◌, if◌then◌else◌, ok, err, Result,
  ◌>>=◌, ◌>>◌, pure,
}
use otel_logger.Storage.File.{File, IoError, out_of_fuel, Io, metadata_len, seek, read_exact}
use otel_logger.Storage.Append.{truncate}

abbrev pub newline : ℕ
newline = b'\n'

-- The size of the buffer.
abbrev pub chunk : ℕ
chunk = 8192

-- `iter().rposition(|byte| *byte == b'\n')`
unfoldable pub rposition : List ℕ → Option ℕ
rposition [] = none
rposition (b ∷ bs) = elim (rposition bs) [
  | some i ↦ some (suc i)
  | none ↦ if b == newline then some 0 else none
]

-- `file.seek(SeekFrom::Start(start))?; file.read_exact(&mut buf[..size])?`
unfoldable pub read_back : ℕ → ℕ → Io (List ℕ)
read_back start size = do seek start; read_exact size

-- The end of the loop's round: a newline in the buffer, or another round with `end = start`.
unfoldable pub found : ℕ → Option ℕ → Io ℕ → Io ℕ
found start (some pos) again = pure (start + pos + 1)
found start none again = again

-- The loop, for a buffer of any size. A round that starts above 0 lowers `end`, and one that starts
-- at 0 ends the loop, so that one round more than `end` is enough.
unfoldable pub find_end : ℕ → ℕ → ℕ → Io ℕ
find_end size zero end f = (err out_of_fuel, f)
find_end size (suc fuel) end f =
    let start = end - size in
    let again = find_end size fuel start in
    if end == 0
    then (ok 0, f)
    else (do buf ← read_back start (end - start); found start (rposition buf) again) f

unfoldable pub cut_at : ℕ → ℕ → Io Unit
cut_at valid_len original_len = if valid_len == original_len then pure tt else truncate valid_len

unfoldable pub recover_tail : Io Unit
recover_tail = do
  original_len ← metadata_len
  valid_len ← find_end chunk (suc original_len) original_len
  cut_at valid_len original_len
