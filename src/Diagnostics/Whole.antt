-- ===== src/Diagnostics/Whole.antt =====
-- What was written whole stands in the output as it was, and nothing is glued to a torn line.
use otel_logger.Prelude.{
  ℕ, ◌+◌, ◌≡◌, refl, sym, ◌∙◌, ap, subst, List, [], ◌∷◌, ◌++◌, append_assoc, append-nil, Bool, true,
  false, ◌==◌, ltb, if◌then◌else◌, Bool-cases, inl, inr, arith, length, take, drop,
  take-append-drop, length-append, Result, ok, err, saturating_add,
}
use otel_logger.Diagnostics.{
  Line, Answer, accepted, interrupted, refused, Out, write_rest, write_counting, written_line,
  write_closed, write_behind, Written, a_line, a_note, Diagnostics, Event, overflow, flush, line,
  write_line, note_write, put_line, behind_note, on_line, on_event, run, spawn,
}

-- What a run of writes did: all is written, or a part of it, of the length that is told.
abbrev Wrote : Line → Line → ℕ → Result ℕ Unit × Out → Type 0
Wrote bytes buf written (ok u, out) = out.bytes ≡ bytes ++ buf
Wrote bytes buf written (err n, out) =
    (f : Line) × (c : ℕ) × (rest : Line) × (buf ≡ f ++ (c ∷ rest))
    × (out.bytes ≡ bytes ++ f)
    × (n ≡ written + length f)

Wrote-shift :
    (bytes t buf : Line) (written : ℕ) (r : Result ℕ Unit × Out)
    → Wrote (bytes ++ t) buf (written + length t) r
    → Wrote bytes (t ++ buf) written r
Wrote-shift bytes t buf written (ok u, out) h = h ∙ append_assoc bytes t buf
Wrote-shift bytes t buf written (err n, out) (f, c, rest, p, q, e) = (
  t ++ f,
  c,
  rest,
  ap (λ x. t ++ x) p ∙ sym (append_assoc t f (c ∷ rest)),
  q ∙ append_assoc bytes t f,
  omega (arith, e, length-append t f),
)

write_rest-Wrote :
    (answers : List Answer) (buf : Line) (written : ℕ) (bytes : Line)
    → Wrote bytes buf written (write_rest answers buf written bytes)
unfolding write_rest
write_rest-Wrote [] buf written bytes = refl
write_rest-Wrote (a ∷ more) [] written bytes = sym (append-nil bytes)
write_rest-Wrote (accepted n ∷ more) (b ∷ buf) written bytes =
    let t = take n (b ∷ buf) in
    let rest = drop n (b ∷ buf) in
    elim (Bool-cases (n == 0)) [
      | inl e ↦ rw e ([], b, buf, refl, sym (append-nil bytes), omega arith)
      | inr e ↦ rw e (
          subst
            (λ x. Wrote bytes x written (write_rest more rest (written + length t) (bytes ++ t)))
            (take-append-drop n (b ∷ buf))
            (Wrote-shift bytes t rest written
              (write_rest more rest (written + length t) (bytes ++ t))
              (write_rest-Wrote more rest (written + length t) (bytes ++ t))))
    ]
write_rest-Wrote (interrupted ∷ more) (b ∷ buf) written bytes =
    write_rest-Wrote more (b ∷ buf) written bytes
write_rest-Wrote (refused ∷ more) (b ∷ buf) written bytes =
    ([], b, buf, refl, sym (append-nil bytes), omega arith)

-- A part of a newline that is not all of it.
part_of_one : (f : Line) (c : ℕ) (rest : Line) → ◌≡◌ {A = Line} (10 ∷ []) (f ++ (c ∷ rest)) → f ≡ []
part_of_one [] c rest p = refl
part_of_one (x ∷ []) c rest p = cc
part_of_one (x ∷ y ∷ f) c rest p = cc

length_zero : (f : Line) → length f ≡ 0 → f ≡ []
length_zero [] h = refl
length_zero (x ∷ f) h = absurd (ground arith)

module _ (dropped_note : ℕ → Line) where
  abbrev pub text_of : Written → Line
  text_of (a_line l) = l
  text_of (a_note n) = dropped_note n

  -- An output, what was written whole in it, and whether it ends in a torn line: a text is added
  -- whole behind whole lines, or a part of a text that tears the line, and a newline closes it.
  pub data Output : Line → List Written → Bool → Type 0 where
    empty : Output [] [] false
    whole :
        {b : Line} {log : List Written} (w : Written)
        → Output b log false
        → Output (b ++ text_of w) (log ++ (w ∷ [])) false
    tear :
        {b : Line} {log : List Written} (w : Written) (f : Line) (c : ℕ) (rest : Line)
        → text_of w ≡ f ++ (c ∷ rest)
        → Output b log false
        → Output (b ++ f) log true
    close : {b : Line} {log : List Written} → Output b log true → Output (b ++ (10 ∷ [])) log false

  abbrev logged : Bool → List Written → Written → List Written
  logged b log w = if b then log ++ (w ∷ []) else log

  -- What a call of `write_line` makes of an output.
  abbrev Goes : List Written → Written → Bool × Bool × Out → Type 0
  Goes log w r = Output r.2.bytes (logged r.0 log w) r.1

  written_line-Goes :
      (w : Written) (log : List Written) (bytes : Line) (r : Result ℕ Unit × Out)
      → Wrote bytes (text_of w) 0 r
      → Output bytes log false
      → Goes log w (written_line r)
  unfolding written_line
  written_line-Goes w log bytes (ok u, out) e h =
      subst (λ x. Output x (log ++ (w ∷ [])) false) (sym e) (whole w h)
  written_line-Goes w log bytes (err n, out) (f, c, rest, p, q, e) h =
      subst (λ x. Output x log (ltb 0 n)) (sym q)
        (elim (Bool-cases (ltb 0 n)) [
          | inl some_written ↦ rw some_written (tear w f c rest p h)
          | inr none_written ↦
              let nothing : f ≡ [] = length_zero f (ground arith) in
              rw (none_written, nothing, append-nil bytes) h
        ])

  write_closed-Goes :
      (w : Written) (log : List Written) (out : Out)
      → Output out.bytes log false
      → Goes log w (write_closed (text_of w) out)
  unfolding write_closed write_counting
  write_closed-Goes w log out h =
      written_line-Goes w log out.bytes (write_rest out.answers (text_of w) 0 out.bytes)
        (write_rest-Wrote out.answers (text_of w) 0 out.bytes) h

  -- A newline is written, or nothing of it.
  write_behind-Goes :
      (w : Written) (log : List Written) (bytes : Line) (r : Result ℕ Unit × Out)
      → Wrote bytes (10 ∷ []) 0 r
      → Output bytes log true
      → Goes log w (write_behind (text_of w) r)
  unfolding write_behind
  write_behind-Goes w log bytes (ok u, out) e h =
      write_closed-Goes w log out (subst (λ x. Output x log false) (sym e) (close h))
  write_behind-Goes w log bytes (err n, out) (f, c, rest, p, q, e) h =
      let nothing = part_of_one f c rest p in
      subst (λ x. Output x log true) (sym q) (rw (nothing, append-nil bytes) h)

  write_line-Goes :
      (w : Written) (log : List Written) (torn : Bool) (out : Out)
      → Output out.bytes log torn
      → Goes log w (write_line (text_of w) torn out)
  unfolding write_line write_counting
  write_line-Goes w log true out h =
      write_behind-Goes w log out.bytes (write_rest out.answers (10 ∷ []) 0 out.bytes)
        (write_rest-Wrote out.answers (10 ∷ []) 0 out.bytes) h
  write_line-Goes w log false out h = write_closed-Goes w log out h

  -- The states of `run`.
  abbrev IsWhole : Diagnostics → Type 0
  IsWhole s = Output s.out.bytes s.written s.torn

  note_write-IsWhole :
      (w : Written) (lost : ℕ) (r : Bool × Bool × Out) (s : Diagnostics)
      → Goes s.written w r
      → IsWhole (note_write w lost r s).1
  unfolding note_write
  note_write-IsWhole w lost (true, torn, out) s h = h
  note_write-IsWhole w lost (false, torn, out) s h = h

  put_line-IsWhole : (l : Line) (s : Diagnostics) → IsWhole s → IsWhole (put_line l s)
  unfolding put_line
  put_line-IsWhole l s h =
      note_write-IsWhole (a_line l) 1 (write_line l s.torn s.out) s
        (write_line-Goes (a_line l) s.written s.torn s.out h)

  behind_note-IsWhole :
      (l : Line) (r : Bool × Diagnostics) → IsWhole r.1 → IsWhole (behind_note l r)
  unfolding behind_note
  behind_note-IsWhole l (true, s) h = put_line-IsWhole l s h
  behind_note-IsWhole l (false, s) h = h

  on_line-IsWhole :
      (l : Line) (n : ℕ) (s : Diagnostics) → IsWhole s → IsWhole (on_line dropped_note l n s)
  unfolding on_line
  on_line-IsWhole l n s h = elim (Bool-cases (ltb 0 n)) [
    | inl e ↦ rw e (
        behind_note-IsWhole l
          (note_write (a_note n) (saturating_add n 1) (write_line (dropped_note n) s.torn s.out) s)
          (note_write-IsWhole (a_note n) (saturating_add n 1)
            (write_line (dropped_note n) s.torn s.out) s
            (write_line-Goes (a_note n) s.written s.torn s.out h)))
    | inr e ↦ rw e (put_line-IsWhole l s h)
  ]

  run-IsWhole : (es : List Event) (s : Diagnostics) → IsWhole s → IsWhole (run dropped_note es s)
  unfolding run on_event
  run-IsWhole [] s h = h
  run-IsWhole (overflow ∷ es) s h =
      run-IsWhole es (on_event dropped_note overflow s) (unfold on_event in h)
  run-IsWhole (flush ∷ es) s h = run-IsWhole es s h
  run-IsWhole (line l ∷ es) s h =
      run-IsWhole es (on_event dropped_note (line l) s)
        (unfold on_event in on_line-IsWhole l s.dropped (record s { dropped = 0 }) h)

  -- Whatever the output answers and whatever comes, the output consists of the lines and notes that
  -- were written whole, in their order, each behind whole lines only, and of parts of texts that
  -- failed, each closed by a newline before anything else is written.
  pub run-Output :
      (answers : List Answer) (es : List Event)
      → Output
          (run dropped_note es (spawn answers)).out.bytes
          (run dropped_note es (spawn answers)).written
          (run dropped_note es (spawn answers)).torn
  run-Output answers es = run-IsWhole es (spawn answers) empty
