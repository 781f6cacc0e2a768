-- ===== src/Channel.antt =====
-- What src/sink.rs and src/forward/router.rs rely on of `tokio::sync::mpsc`: a bounded queue that
-- is sent to without waiting.
use otel_logger.Prelude.{
  ℕ, ◌≤◌, ◌<◌, ◌≡◌, refl, Option, none, some, List, [], ◌∷◌, ◌++◌, Bool, true, false, length, ltb,
  if◌then◌else◌, arith,
}

pub data TrySend (C : Type 0) : Type 0 where
  sent : C → TrySend C
  full closed : TrySend C

pub record Channel (A : Type 0) : Type 1 where
  pub Chan : Type 0
  pub contents : Chan → List A
  pub capacity : Chan → ℕ
  pub is_closed : Chan → Bool
  pub try_send : A → Chan → TrySend Chan
  pub receive : Chan → Option (A × Chan)
  -- A message that is sent goes behind the others, into a channel that is open and has room.
  pub sent_lem :
      (a : A) (c c' : Chan)
      → try_send a c ≡ sent c'
      → (contents c' ≡ contents c ++ (a ∷ []))
        × (length (contents c) < capacity c)
        × (capacity c' ≡ capacity c)
        × (is_closed c ≡ false)
        × (is_closed c' ≡ false)
  pub full_lem :
      (a : A) (c : Chan)
      → try_send a c ≡ full
      → (capacity c ≤ length (contents c)) × (is_closed c ≡ false)
  pub closed_lem : (a : A) (c : Chan) → try_send a c ≡ closed → is_closed c ≡ true
  -- The receiver gets the oldest message.
  pub received :
      (a : A) (c c' : Chan)
      → receive c ≡ some (a, c')
      → (contents c ≡ a ∷ contents c') × (capacity c' ≡ capacity c) × (is_closed c' ≡ is_closed c)
  pub drained : (c : Chan) → receive c ≡ none → contents c ≡ []

-- A list with a bound meets this.
pub record Queue (A : Type 0) : Type 0 where
  pub items : List A
  pub cap : ℕ
  pub shut : Bool

module _ {A : Type 0} where
  abbrev pub send_to : A → Queue A → TrySend (Queue A)
  send_to a q =
      if q.shut
      then closed
      else if ltb (length q.items) q.cap
      then sent (record q { items = q.items ++ (a ∷ []) })
      else full

  abbrev pub take_from : List A → Queue A → Option (A × Queue A)
  take_from [] q = none
  take_from (a ∷ as') q = some (a, record q { items = as' })

  module _ (a : A) (q q' : Queue A) where
    pub send_to_sent :
        send_to a q ≡ sent q'
        → (q'.items ≡ q.items ++ (a ∷ []))
          × (length q.items < q.cap)
          × (q'.cap ≡ q.cap)
          × (q.shut ≡ false)
          × (q'.shut ≡ false)
    send_to_sent h = ground arith

  pub send_to_full :
      (a : A) (q : Queue A) → send_to a q ≡ full → (q.cap ≤ length q.items) × (q.shut ≡ false)
  send_to_full a q h = ground arith

  pub send_to_closed : (a : A) (q : Queue A) → send_to a q ≡ closed → q.shut ≡ true
  send_to_closed a q h = ground arith

  pub take_from-some :
      (l : List A) (a : A) (q q' : Queue A)
      → take_from l q ≡ some (a, q')
      → (l ≡ a ∷ q'.items) × (q'.cap ≡ q.cap) × (q'.shut ≡ q.shut)
  take_from-some [] a q q' h = cc
  take_from-some (x ∷ l) a q q' h = ground arith

  pub take_from-none : (l : List A) (q : Queue A) → take_from l q ≡ none → l ≡ []
  take_from-none [] q h = refl
  take_from-none (x ∷ l) q h = cc

  abbrev pub queues : Channel A
  queues = record {
    Chan = Queue A;
    contents = λ q. q.items;
    capacity = λ q. q.cap;
    is_closed = λ q. q.shut;
    try_send = send_to;
    receive = λ q. take_from q.items q;
    sent_lem = send_to_sent;
    full_lem = send_to_full;
    closed_lem = send_to_closed;
    received = λ a q q'. take_from-some q.items a q q';
    drained = λ q. take_from-none q.items q;
  }
