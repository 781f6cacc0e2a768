-- ===== src/Http/Answers.antt =====
-- What a response says of the batch: stored, to be sent again, or never to be.
use otel_logger.Prelude.{ℕ, ◌≡◌, refl, ◌⊎◌, inl, inr, Result, ok, err, Result-cases}
use otel_logger.Http.{
  Text, Encoding, unsupported_content_type, bad_protobuf, bad_json, bad_body, persistence, busy,
  body_too_large, body_timeout, status_of, detect_encoding, HttpRequest, Backend, Failure, map_err,
  receive_body, decode_request, persist_message, handle, respond,
}

module _ (rc : Backend) where
  open rc use {Error, Message, Sink, record_with_permit}

  -- The sink acknowledged the message of the request.
  pub record IsStored (r : HttpRequest Error) (s s' : Sink) : Type 0 where
    pub encoding : Encoding
    pub bytes : Text
    pub message : Message
    pub detected : detect_encoding {E = Error} r.content_type ≡ ok encoding
    pub came : receive_body rc r ≡ ok bytes
    pub decoded : decode_request rc encoding bytes ≡ ok message
    pub stored : record_with_permit message s ≡ (ok tt, s')

  -- The sink was not called, or refused the message.
  pub data IsUnstored (s s' : Sink) : Type 0 where
    untouched : s' ≡ s → IsUnstored s s'
    refused : (m : Message) (e : Error) → record_with_permit m s ≡ (err e, s') → IsUnstored s s'

  -- A status that tells the client to send again, or never to.
  abbrev pub IsRetryable : ℕ → Type 0
  IsRetryable n = n ≡ 503

  abbrev pub IsFinal : ℕ → Type 0
  IsFinal n = (n ≡ 400) ⊎ ((n ≡ 413) ⊎ (n ≡ 415))

  abbrev pub Answer : HttpRequest Error → Sink → ℕ → Sink → Type 0
  Answer r s status s' =
      ((status ≡ 200) × IsStored r s s')
      ⊎ ((IsRetryable status × IsUnstored s s') ⊎ (IsFinal status × (s' ≡ s)))

  -- The status of an error before the sink.
  status_early : (e : Failure rc) → IsRetryable (status_of e) ⊎ IsFinal (status_of e)
  unfolding status_of
  status_early (unsupported_content_type t) = inr (inr (inr refl))
  status_early (bad_protobuf e) = inr (inl refl)
  status_early (bad_json e) = inr (inl refl)
  status_early (bad_body e) = inr (inl refl)
  status_early body_too_large = inr (inr (inl refl))
  status_early (busy e) = inl refl
  status_early body_timeout = inl refl
  status_early (persistence e) = inl refl

  early : (r : HttpRequest Error) (s : Sink) (e : Failure rc) → Answer r s (status_of e) s
  early r s e = elim (status_early e) [
    | inl again ↦ inr (inl (again, untouched refl))
    | inr never ↦ inr (inr (never, refl))
  ]

  after_persist :
      (r : HttpRequest Error) (s : Sink) (encoding : Encoding) (bytes : Text) (m : Message)
      → detect_encoding {E = Error} r.content_type ≡ ok encoding
      → receive_body rc r ≡ ok bytes
      → decode_request rc encoding bytes ≡ ok m
      → (x : Result Error (Unit {0})) (s' : Sink) → record_with_permit m s ≡ (x, s')
      → Answer r s (respond rc (handle rc r s).0).status (handle rc r s).1
  unfolding handle persist_message map_err respond status_of
  after_persist r s encoding bytes m d b c (ok u) s' q =
      rw (d, b, c, q)
        (inl (
          refl,
          record {
            encoding = encoding;
            bytes = bytes;
            message = m;
            detected = d;
            came = b;
            decoded = c;
            stored = q;
          },
        ))
  after_persist r s encoding bytes m d b c (err e) s' q =
      rw (d, b, c, q) (inr (inl (refl, refused m e q)))

  -- Whatever a request brings: with 200, its body was received and decoded as its header says, and
  -- the sink acknowledged the message; with 503, which lets the client send again, the sink was not
  -- called or refused the message; and with 400, 413 or 415, which do not, the sink is as it was.
  pub handle_answers :
      (r : HttpRequest Error) (s : Sink)
      → Answer r s (respond rc (handle rc r s).0).status (handle rc r s).1
  unfolding handle respond
  handle_answers r s = elim (Result-cases (detect_encoding {E = Error} r.content_type)) [
    | inr (e, d) ↦ rw d (early r s e)
    | inl (encoding, d) ↦ elim (Result-cases (receive_body rc r)) [
      | inr (e, b) ↦ rw (d, b) (early r s e)
      | inl (bytes, b) ↦ elim (Result-cases (decode_request rc encoding bytes)) [
        | inr (e, c) ↦ rw (d, b, c) (early r s e)
        | inl (m, c) ↦
            unfold handle respond in
            after_persist r s encoding bytes m d b c (record_with_permit m s).0
              (record_with_permit m s).1 refl
      ]
    ]
  ]
