-- ===== src/Storage/File.antt =====
-- What src/storage.rs uses of `std::fs::File`: the bytes on disk, the cursor, what the last
-- `sync_all` made durable, and the outcomes of the calls to come, which the system chooses.
use otel_logger.Prelude.{
  ℕ, ◌+◌, ◌-◌, ◌≤◌, ◌≡◌, refl, ◌⊎◌, inl, inr, List, [], ◌∷◌, ◌++◌, append-nil, length, take, drop,
  replicate, ltb, if◌then◌else◌, ok, err, Action, arith,
}

-- A call passes, or fails; a write that fails has written its first n bytes.
pub data Fault : Type 0 where
  pass : Fault
  fail : ℕ → Fault

-- `out_of_fuel` is no error of the system: it marks a loop of the model that was cut short.
pub data IoError : Type 0 where
  io_error unexpected_eof out_of_fuel : IoError

pub record File : Type 0 where
  pub bytes : List ℕ
  pub cursor : ℕ
  pub durable : List ℕ
  pub faults : List Fault

abbrev pub Io : Type 0 → Type 0
Io A = Action File IoError A

-- The outcome of the next call. When none is left every call passes.
abbrev pub next : List Fault → Fault
next [] = pass
next (o ∷ os) = o

abbrev pub later : List Fault → List Fault
later [] = []
later (o ∷ os) = os

abbrev attempt {ℓ} : {A : Type ℓ} → Fault → A → (ℕ → A) → A
attempt pass x y = x
attempt (fail n) x y = y n

pub Fault-cases : (o : Fault) → (o ≡ pass) ⊎ ((n : ℕ) × (o ≡ fail n))
Fault-cases pass = inl refl
Fault-cases (fail n) = inr (n, refl)

-- `set_len` cuts, or extends with zero bytes.
abbrev pub resize : ℕ → List ℕ → List ℕ
resize n bs = take n bs ++ replicate (n - length bs) 0

module _ (f : File) where
  abbrev rest : File
  rest = record f { faults = later f.faults }

unfoldable pub metadata_len : Io ℕ
metadata_len f = attempt (next f.faults) (ok (length f.bytes), rest f) (λ _. (err io_error, rest f))

unfoldable pub set_len : ℕ → Io Unit
set_len n f =
    attempt (next f.faults) (ok tt, record f { bytes = resize n f.bytes; faults = later f.faults })
      (λ _. (err io_error, rest f))

unfoldable pub seek : ℕ → Io Unit
seek n f =
    attempt (next f.faults) (ok tt, record f { cursor = n; faults = later f.faults })
      (λ _. (err io_error, rest f))

-- The handle is in append mode.
unfoldable pub write_all : List ℕ → Io Unit
write_all bs f =
    attempt (next f.faults) (ok tt, record f { bytes = f.bytes ++ bs; faults = later f.faults })
      (λ n. (err io_error, record f { bytes = f.bytes ++ take n bs; faults = later f.faults }))

unfoldable pub flush : Io Unit
flush f = attempt (next f.faults) (ok tt, rest f) (λ _. (err io_error, rest f))

-- `read_exact` of a buffer of the given size, from the cursor.
unfoldable pub read_exact : ℕ → Io (List ℕ)
read_exact n f =
    attempt (next f.faults)
      (if ltb (length f.bytes) (f.cursor + n) then (err unexpected_eof, rest f) else (
        ok (take n (drop f.cursor f.bytes)),
        record f { cursor = f.cursor + n; faults = later f.faults },
      ))
      (λ _. (err io_error, rest f))

unfoldable pub sync_all : Io Unit
sync_all f =
    attempt (next f.faults) (ok tt, record f { durable = f.bytes; faults = later f.faults })
      (λ _. (err io_error, rest f))

pub resize-le : (n : ℕ) (bs : List ℕ) → n ≤ length bs → resize n bs ≡ take n bs
resize-le n bs h = let e : n - length bs ≡ 0 = omega arith in rw e (append-nil (take n bs))
