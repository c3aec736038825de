-- ===== src/Interface/Filter.antt =====
-- src/shared/http/problem-details.filter.ts and zod-validation.pipe.ts, with the ProblemException of
-- problem-details.ts. The schema of a pipe is the zod library's: its `safeParse` is a parameter, which
-- gives the value, or the messages of the issues.
use mathlib.Core.List as L
use miniledger.Base.{
  ℕ, pos, ◌≡◌, refl, sym, ap, inl, inr, String, Option, none, some, List, Result, ok, err,
  Result-cases,
}
use miniledger.Base.Texts.{◌<>◌, append-empty}
use miniledger.Base.Json.{Value, Fields, null, number, text, object, end, field, get, set}
use miniledger.Interface.Problems.{ProblemDetails, problem}

-- What the filter reads of an `HttpException`.
pub record HttpException : Type 0 where
  pub status : ℕ
  pub response : Value
  pub message : String

pub record FilterResponse : Type 0 where
  pub status : ℕ
  pub content_type : String
  pub body : Fields

abbrev pub detail_field : Option String → Fields
detail_field none = end
detail_field (some detail) = field "detail" (text detail) end

-- A problem as a JavaScript object; a missing detail is no field.
abbrev pub problem_fields : ProblemDetails → Fields
problem_fields p =
    field "type" (text p.type) (
      field "title" (text p.title) (field "status" (number (pos p.status)) (detail_field p.detail)))

-- `new ProblemException(problem)`; its message is not read, for the payload has a title.
abbrev pub problem_exception : ProblemDetails → String → HttpException
problem_exception p message = record {
  status = p.status;
  response = object (problem_fields p);
  message = message;
}

abbrev pub blank : String → Fields
blank message = field "type" (text "about:blank") (field "title" (text message) end)

abbrev titled_or_blank : Fields → String → Option Value → Fields
titled_or_blank fields message none = blank message
titled_or_blank fields message (some title) = fields

-- `'title' in payload`, of a payload that is an object. An array has no title.
abbrev pub problem_of : Value → String → Fields
problem_of (object fields) message = titled_or_blank fields message (get "title" fields)
problem_of null message = blank message
problem_of (Value.boolean b) message = blank message
problem_of (number n) message = blank message
problem_of (text s) message = blank message
problem_of (Value.array items) message = blank message

-- `catch`
unfoldable pub respond : HttpException → FilterResponse
respond exception = record {
  status = exception.status;
  content_type = "application/problem+json";
  body =
      set "status" (number (pos exception.status))
        (problem_of exception.response exception.message);
}

-- `issues.map((issue) => issue.message).join('; ')`
unfoldable pub join_messages : List String → String
join_messages L.[] = ""
join_messages (L.◌∷◌ s L.[]) = s
join_messages (L.◌∷◌ s (L.◌∷◌ t ts)) = s <> "; " <> join_messages (L.◌∷◌ t ts)

module _ {A : Type 0} (safe_parse : Value → Result A (List String)) where
  abbrev parsed : Result A (List String) → Result A ProblemDetails
  parsed (ok value) = ok value
  parsed (err messages) = err (problem 422 "Validation failed" (join_messages messages))

  -- `transform`
  unfoldable pub transform : Value → Result A ProblemDetails
  unfolding join_messages
  transform value = parsed (safe_parse value)

-- Each message after the first, behind a separator.
abbrev pub others : List String → String
others L.[] = ""
others (L.◌∷◌ message messages) = "; " <> (message <> others messages)

-- All the messages, in order.
abbrev pub IsDetail : List String → String → Type 0
IsDetail L.[] detail = detail ≡ ""
IsDetail (L.◌∷◌ message messages) detail = detail ≡ message <> others messages

join_messages-IsDetail : (messages : List String) → IsDetail messages (join_messages messages)
unfolding join_messages
join_messages-IsDetail L.[] = refl
join_messages-IsDetail (L.◌∷◌ s L.[]) = sym (append-empty s)
join_messages-IsDetail (L.◌∷◌ s (L.◌∷◌ t ts)) =
    ap (λ rest. s <> ("; " <> rest)) (join_messages-IsDetail (L.◌∷◌ t ts))

-- The response to a value that does not validate.
abbrev pub invalid_response : String → FilterResponse
invalid_response detail = record {
  status = 422;
  content_type = "application/problem+json";
  body = field "type" (text "about:blank") (
      field "title" (text "Validation failed")
        (field "status" (number (pos 422)) (field "detail" (text detail) end)));
}

module _ {A : Type 0} (safe_parse : Value → Result A (List String)) where
  -- The two ends of a validated value: what the schema gives, or a response of 422 with its messages.
  abbrev pub IsValidated : Value → Result A ProblemDetails → Type 0
  IsValidated value (ok a) = safe_parse value ≡ ok a
  IsValidated value (err p) =
      (messages : List String) × (detail : String) × (safe_parse value ≡ err messages)
      × (respond (problem_exception p "") ≡ invalid_response detail)
      × IsDetail messages detail

  -- The pipe passes on the value that the schema gives, and where the schema finds issues the response
  -- of the filter is a 422 problem whose detail is all their messages, in order and with `; ` between
  -- them.
  pub transform-IsValidated : (value : Value) → IsValidated value (transform safe_parse value)
  unfolding transform respond get set
  transform-IsValidated value = elim (Result-cases (safe_parse value)) [
    | inl (a, valid) ↦ rw valid valid
    | inr (messages, invalid) ↦
        rw invalid
          (messages, join_messages messages, invalid, refl, join_messages-IsDetail messages)
  ]
