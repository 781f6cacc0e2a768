-- ===== src/Forward/Client/Delays.antt =====
-- What an upstream can make a worker wait.
use otel_logger.Prelude.{
  ◌⊎◌, ℕ, ◌+◌, ◌*◌, ◌^◌, ◌≤◌, ◌≡◌, refl, Option, none, some, List, [], ◌∷◌, Bool, true, false, ◌&&◌,
  leb, ltb, bytes_of, bytes_eq, Bool-cases, inl, inr, arith,
}
use otel_logger.Prelude.Int.{ℤ, pos, negsuc}
use otel_logger.Forward.Client.{
  Code, RpcAny, RpcRetryInfo, grpc_status, checked, in_range, delay_of_info, delay_of_detail,
  first_delay_of, delay_of_details, grpc_retry_info, grpc_delay, retry_delay, last_part,
}

-- The longest `google.protobuf.Duration`.
abbrev pub longest : ℕ
longest = 315576000000 * 10 ^ 9 + 999999999

abbrev pub IsShort : (ℕ → Bool) → Option ℕ → Type 0
IsShort checked_add none = Unit
IsShort checked_add (some d) = (d ≤ longest) × ((d ≡ 0) ⊎ (checked_add d ≡ true))

module _ (decode_status : List ℕ → Option (List RpcAny))
    (decode_info : List ℕ → Option RpcRetryInfo) (checked_add : ℕ → Bool) where
  in_range-IsShort :
      (s n : ℤ) → IsShort checked_add (in_range decode_status decode_info checked_add s n)
  unfolding in_range checked
  in_range-IsShort (pos s) (pos n) = elim (Bool-cases (leb s 315576000000 && ltb n (10 ^ 9))) [
    | inl inside ↦ elim (Bool-cases (checked_add (s * 10 ^ 9 + n))) [
      | inl added ↦ rw (inside, added) (ground arith, inr added)
      | inr over ↦ rw (inside, over) tt
    ]
    | inr bad ↦ rw bad tt
  ]
  in_range-IsShort (pos s) (negsuc n) = tt
  in_range-IsShort (negsuc s) n = tt

  info-IsShort :
      (i : Option RpcRetryInfo)
      → IsShort checked_add (delay_of_info decode_status decode_info checked_add i)
  unfolding delay_of_info
  info-IsShort none = tt
  info-IsShort (some i) =
      elim i.retry_delay
        as (λ o. IsShort checked_add (
          delay_of_info decode_status decode_info checked_add
            (some (record { retry_delay = o })))) [
              | none ↦ (omega arith, inl refl)
              | some d ↦ in_range-IsShort d.seconds d.nanos
            ]

  detail-IsShort :
      (d : RpcAny) → IsShort checked_add (delay_of_detail decode_status decode_info checked_add d)
  unfolding delay_of_detail
  detail-IsShort d =
      elim (Bool-cases (bytes_eq (last_part [] d.type_url) (bytes_of "google.rpc.RetryInfo"))) [
        | inl e ↦ rw e (info-IsShort (decode_info d.value))
        | inr e ↦ rw e tt
      ]

  details-IsShort :
      (ds : List RpcAny)
      → IsShort checked_add (first_delay_of decode_status decode_info checked_add ds)
  unfolding first_delay_of
  details-IsShort [] = tt
  details-IsShort (d ∷ ds) =
      elim (delay_of_detail decode_status decode_info checked_add d)
          as (λ o.
            IsShort checked_add o
            → IsShort checked_add (elim o [
              | none ↦ first_delay_of decode_status decode_info checked_add ds
              | some x ↦ some x
            ])) [ none ↦ λ h. details-IsShort ds | some x ↦ λ h. h ]
        (detail-IsShort d)

  grpc_delay-IsShort :
      (code : Code) (info : Option ℕ) (transport : Bool)
      → IsShort checked_add info
      → IsShort checked_add (grpc_delay decode_status decode_info checked_add code info transport)
  unfolding grpc_delay
  grpc_delay-IsShort Code.resource_exhausted info transport h = h
  grpc_delay-IsShort Code.unknown info true h = (omega arith, inl refl)
  grpc_delay-IsShort Code.unknown info false h = tt
  grpc_delay-IsShort Code.internal info true h = (omega arith, inl refl)
  grpc_delay-IsShort Code.internal info false h = tt
  grpc_delay-IsShort _ none transport h = ground arith
  grpc_delay-IsShort _ (some d) transport h = ground (arith, h)

  -- A delay that a gRPC status asks for, whatever bytes its details hold, is at most the longest
  -- protobuf duration, and is 0 or one that can be added to the clock.
  pub retry_delay-IsShort :
      (code : Code) (details : List ℕ) (transport : Bool)
      → IsShort checked_add
          (retry_delay decode_status decode_info checked_add (grpc_status code details transport))
  unfolding retry_delay grpc_retry_info delay_of_details
  retry_delay-IsShort code details transport =
      grpc_delay-IsShort code _ transport
        (elim (decode_status details)
          as (λ o. IsShort checked_add (delay_of_details decode_status decode_info checked_add o)) [
            | none ↦ tt
            | some ds ↦ details-IsShort ds
          ])
