-- ===== src/Http/Tests.antt =====
-- A request that is stored, over a receiver that keeps what it gets.
use otel_logger.Prelude.{
  ℕ, eq_ignore_ascii_case, to_lower, ◌≡◌, refl, some, List, [], ◌∷◌, ok, err, Result, bytes_of,
}
use otel_logger.Http.{
  Text, json, HttpRequest, received, Backend, handle, respond, detect_encoding, encoding_of,
  primary_of, trim_start, trim_end, is_space, is_nothing, before_semicolon, receive_body,
  bytes_from, decode_request, map_err, persist_message,
}
use otel_logger.Http.Answers.{Answer, handle_answers}

-- Only an empty body cannot be decoded.
abbrev decode_text : Text → Result ℕ Text
decode_text [] = err 0
decode_text (c ∷ s) = ok (c ∷ s)

abbrev keeper : Backend
keeper = record {
  Error = ℕ;
  Message = Text;
  Sink = List Text;
  decode = decode_text;
  from_slice = decode_text;
  record_with_permit = λ m s. (ok tt, m ∷ s);
}

abbrev request : HttpRequest ℕ
request = record {
  content_type = some (some (bytes_of "Application/JSON ; charset=utf-8"));
  admission = ok tt;
  body = received (bytes_of "{}");
}

handle_answers_example :
    Answer keeper request []
      (respond keeper (handle keeper request []).0).status
      (handle keeper request []).1
handle_answers_example = handle_answers keeper request []

request_is_json : handle keeper request [] ≡ (ok json, bytes_of "{}" ∷ [])
unfolding handle detect_encoding encoding_of eq_ignore_ascii_case to_lower primary_of trim_start
    trim_end is_space is_nothing before_semicolon receive_body bytes_from decode_request map_err
    persist_message
request_is_json = refl
