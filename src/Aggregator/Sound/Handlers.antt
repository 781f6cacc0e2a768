-- ===== src/Aggregator/Sound/Handlers.antt =====
-- Handlers that keep the aggregator sound, for what they report.
use otel_logger.Prelude.{
  ◌+◌, ◌≤◌, List, [], ◌∷◌, Bool, true, false, u64_max, if◌then◌else◌, arith, total,
}
use otel_logger.Aggregator.Stats.{Float, Counter}
use otel_logger.Aggregator.State.{AggregatorInner}
use otel_logger.Aggregator.Reports.{each}
use otel_logger.Aggregator.Ingest.{both, skip, Handler}
use otel_logger.Aggregator.Sound.Reported.{only_if}
use otel_logger.Aggregator.Sound.{Budget, IsSound, IsSound-more}

module _ (fl : Float) where
  -- What a handler keeps, while the budget and what it reports fit a `u64`.
  abbrev pub Keeps : Budget → Handler fl → Type 0
  Keeps w f =
      (n : Budget) (g : AggregatorInner fl)
      → ((c : Counter) → n c + w c ≤ u64_max)
      → IsSound fl n g
      → IsSound fl (λ c. n c + w c) (f g).1

  pub skip-Keeps : (w : Budget) → Keeps w skip
  skip-Keeps w n g fits h = IsSound-more fl n (λ c. n c + w c) g (λ c. omega arith) h

  pub Keeps-more :
      (w w' : Budget) (f : Handler fl) → ((c : Counter) → w c ≤ w' c) → Keeps w f → Keeps w' f
  Keeps-more w w' f more k n g fits h =
      IsSound-more fl (λ c. n c + w c) (λ c. n c + w' c) (f g).1 (λ c. omega (arith, more c))
        (k n g (λ c. omega (arith, fits c, more c)) h)

  pub both-Keeps :
      (v w : Budget) (f h : Handler fl) → Keeps v f → Keeps w h → Keeps (λ c. v c + w c) (both f h)
  both-Keeps v w f h kf kh n g fits s =
      IsSound-more fl (λ c. n c + v c + w c) (λ c. n c + (v c + w c)) (h (f g).1).1
        (λ c. omega arith)
        (kh (λ c. n c + v c) (f g).1 (λ c. omega (arith, fits c))
          (kf n g (λ c. omega (arith, fits c)) s))

  pub each-Keeps :
      {A : Type 0} (w : A → Budget) (handle : A → Handler fl)
      → ((a : A) → Keeps (w a) (handle a))
      → (xs : List A) → Keeps (λ c. total (λ a. w a c) xs) (each handle xs)
  unfolding each
  each-Keeps w handle k [] = skip-Keeps (λ c. 0)
  each-Keeps w handle k (x ∷ xs) =
      both-Keeps (w x) (λ c. total (λ a. w a c) xs) (handle x) (each handle xs) (k x)
        (each-Keeps w handle k xs)

  -- A branch that is not taken reports nothing.
  pub if_either-Keeps :
      (v w : Budget) (b : Bool) (f h : Handler fl)
      → Keeps v f
      → Keeps w h
      → Keeps (λ c. only_if b (v c) + w c) (if b then f else h)
  if_either-Keeps v w true f h kf kh = Keeps-more v (λ c. v c + w c) f (λ c. omega arith) kf
  if_either-Keeps v w false f h kf kh = Keeps-more w (λ c. 0 + w c) h (λ c. omega arith) kh

  pub if-Keeps :
      (w : Budget) (b : Bool) (f h : Handler fl)
      → Keeps w f
      → Keeps w h
      → Keeps w (if b then f else h)
  if-Keeps w true f h kf kh = kf
  if-Keeps w false f h kf kh = kh
