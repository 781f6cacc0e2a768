-- ===== src/Storage/Tail/Search.antt =====
-- The search for the last newline, from the end, a buffer at a time.
use otel_logger.Prelude.{
  ℕ, zero, suc, ◌+◌, ◌-◌, ◌≤◌, none, some, List, [], ◌∷◌, ◌++◌, ◌==◌, ◌≡◌, refl, true, false, arith,
  length, take, drop, take-append-drop, append-nil, drop-append, drop-append_le, drop-drop, ap, sym,
  ◌∙◌,
}
use otel_logger.Storage.Tail.{newline, rposition}

abbrev pub NoNewline : List ℕ → Type 0
NoNewline [] = Unit
NoNewline (b ∷ bs) = ((b == newline) ≡ false) × NoNewline bs

-- The first n bytes are complete lines: there are none, or the last of them is a newline.
abbrev pub EndsLine : ℕ → List ℕ → Type 0
EndsLine zero bs = Unit
EndsLine (suc n) [] = ⊥
EndsLine (suc zero) (b ∷ bs) = (b == newline) ≡ true
EndsLine (suc (suc n)) (b ∷ bs) = EndsLine (suc n) bs

-- The last line ends at n.
pub record IsLineEnd (bs : List ℕ) (n : ℕ) : Type 0 where
  pub complete : EndsLine n bs
  pub torn : NoNewline (drop n bs)

pub rposition-none : (bs : List ℕ) → rposition bs ≡ none → NoNewline bs
unfolding rposition
rposition-none [] e = tt
rposition-none (b ∷ bs) e = (ground arith, rposition-none bs (ground arith))

pub rposition-some : (bs : List ℕ) (i : ℕ) → rposition bs ≡ some i → IsLineEnd bs (suc i)
unfolding rposition
rposition-some [] i e = cc
rposition-some (b ∷ bs) zero e = record {
  complete = ground arith;
  torn = rposition-none bs (ground arith);
}
rposition-some (b ∷ bs) (suc i) e =
    let r = rposition-some bs i (ground arith) in record { complete = r.complete; torn = r.torn }

NoNewline-append : (xs ys : List ℕ) → NoNewline xs → NoNewline ys → NoNewline (xs ++ ys)
NoNewline-append [] ys h k = k
NoNewline-append (x ∷ xs) ys h k = (h.0, NoNewline-append xs ys h.1 k)

pub EndsLine-le : (n : ℕ) (xs : List ℕ) → EndsLine n xs → n ≤ length xs
EndsLine-le zero xs h = omega arith
EndsLine-le (suc n) [] h = absurd h
EndsLine-le (suc zero) (x ∷ xs) h = omega arith
EndsLine-le (suc (suc n)) (x ∷ xs) h = omega (arith, EndsLine-le (suc n) xs h)

EndsLine-append : (n : ℕ) (xs ys : List ℕ) → EndsLine n xs → EndsLine n (xs ++ ys)
EndsLine-append zero xs ys h = tt
EndsLine-append (suc n) [] ys h = absurd h
EndsLine-append (suc zero) (x ∷ xs) ys h = h
EndsLine-append (suc (suc n)) (x ∷ xs) ys h = EndsLine-append (suc n) xs ys h

EndsLine-drop : (s i : ℕ) (xs : List ℕ) → EndsLine (suc i) (drop s xs) → EndsLine (suc (s + i)) xs
EndsLine-drop zero i xs h = let e : 0 + i ≡ i = omega arith in rw e h
EndsLine-drop (suc s) i [] h = absurd h
EndsLine-drop (suc s) i (x ∷ xs) h =
    let e : suc s + i ≡ suc (s + i) = omega arith in rw e (EndsLine-drop s i xs h)

-- What the buffer holds is what lies between `start` and `end`.
module _ (bs : List ℕ) (start end : ℕ) (order : start ≤ end) where
  abbrev pub buffer : List ℕ
  buffer = take (end - start) (drop start bs)

  drop-buffer : drop start bs ≡ buffer ++ drop end bs
  drop-buffer =
      let e : start + (end - start) ≡ end = omega arith in
      sym (take-append-drop (end - start) (drop start bs))
      ∙ ap (λ l. buffer ++ l) (drop-drop (end - start) start bs ∙ ap (λ k. drop k bs) e)

  pub torn-buffer : NoNewline buffer → NoNewline (drop end bs) → NoNewline (drop start bs)
  torn-buffer h k = rw drop-buffer (NoNewline-append buffer (drop end bs) h k)

  pub IsLineEnd-buffer :
      (i : ℕ) → IsLineEnd buffer (suc i) → NoNewline (drop end bs) → IsLineEnd bs (start + i + 1)
  IsLineEnd-buffer i h k =
      let e : start + i + 1 ≡ suc (start + i) = omega arith in
      let e' : suc (start + i) ≡ start + suc i = omega arith in
      rw e (record {
        complete =
            EndsLine-drop start i bs
              (rw drop-buffer (EndsLine-append (suc i) buffer (drop end bs) h.complete));
        torn =
            rw
              (
                e',
                ← drop-drop (suc i) start bs,
                drop-buffer,
                drop-append_le (suc i) buffer (drop end bs) (EndsLine-le (suc i) buffer h.complete),
              )
              (NoNewline-append (drop (suc i) buffer) (drop end bs) h.torn k);
      })

NoNewline-not-EndsLine : (n : ℕ) (bs : List ℕ) → NoNewline bs → ¬ EndsLine (suc n) bs
NoNewline-not-EndsLine n [] h e = e
NoNewline-not-EndsLine zero (b ∷ bs) h e = cc
NoNewline-not-EndsLine (suc n) (b ∷ bs) h e = NoNewline-not-EndsLine n bs h.1 e

-- There is one such place.
pub IsLineEnd-unique : (m n : ℕ) (bs : List ℕ) → IsLineEnd bs m → IsLineEnd bs n → m ≡ n
IsLineEnd-unique zero zero bs h k = refl
IsLineEnd-unique zero (suc n) bs h k = absurd (NoNewline-not-EndsLine n bs h.torn k.complete)
IsLineEnd-unique (suc m) zero bs h k = absurd (NoNewline-not-EndsLine m bs k.torn h.complete)
IsLineEnd-unique (suc m) (suc n) [] h k = absurd h.complete
IsLineEnd-unique (suc zero) (suc zero) (b ∷ bs) h k = refl
IsLineEnd-unique (suc zero) (suc (suc n)) (b ∷ bs) h k =
    absurd (NoNewline-not-EndsLine n bs h.torn k.complete)
IsLineEnd-unique (suc (suc m)) (suc zero) (b ∷ bs) h k =
    absurd (NoNewline-not-EndsLine m bs k.torn h.complete)
IsLineEnd-unique (suc (suc m)) (suc (suc n)) (b ∷ bs) h k = ap suc (
    IsLineEnd-unique (suc m) (suc n) bs (record { complete = h.complete; torn = h.torn })
      (record { complete = k.complete; torn = k.torn }))

-- Complete lines before a torn one.
pub IsLineEnd-append :
    (log part : List ℕ)
    → EndsLine (length log) log
    → NoNewline part
    → IsLineEnd (log ++ part) (length log)
IsLineEnd-append log part h k = record {
  complete = EndsLine-append (length log) log part h;
  torn = rw drop-append k;
}

-- A text of whole lines.
abbrev pub IsComplete : List ℕ → Type 0
IsComplete bs = EndsLine (length bs) bs

IsComplete-behind :
    (xs : List ℕ) (y : ℕ) (ys : List ℕ) → IsComplete (y ∷ ys) → IsComplete (xs ++ (y ∷ ys))
IsComplete-behind [] y ys h = h
IsComplete-behind (x ∷ []) y ys h = h
IsComplete-behind (x ∷ (x' ∷ xs)) y ys h = IsComplete-behind (x' ∷ xs) y ys h

pub IsComplete-append : (xs ys : List ℕ) → IsComplete xs → IsComplete ys → IsComplete (xs ++ ys)
IsComplete-append xs [] h k = rw append-nil h
IsComplete-append xs (y ∷ ys) h k = IsComplete-behind xs y ys k
