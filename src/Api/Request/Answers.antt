-- ===== src/Api/Request/Answers.antt =====
-- What becomes of the answers of the control plane: `request` behind `fetch`.
use oort.Prelude.{
  ℕ, ◌≡◌, refl, ◌≢◌, Bool, true, false, ◌&&◌, Option, none, some, [], ◌∷◌, ◌++◌, leb,
}
use oort.Text.{Text, lit, text_eq}
use oort.Json.{Json, string, object, fields_of, show, member, lookup_field, is_truthy, to_string}
use oort.Json.Parse.{parse}
use oort.Json.Parse.Layout.{Says}
use oort.Json.Parse.Documents.{parse-Says}
use oort.Api.{Failure, api_error}
use oort.Prog.{Result, ok, err}
use oort.Api.Request.{payload_of, receive}

-- `{"error": {"code": …, "message": …, "request_id": …}}`
abbrev pub problem_body : Text → Text → Text → Json
problem_body code message request_id = object (
    fields_of (
      (
        lit "error",
        some (
            object (
              fields_of (
                (lit "code", some (string code))
                ∷ (lit "message", some (string message))
                ∷ (lit "request_id", some (string request_id))
                ∷ []))),
      )
      ∷ []))

abbrev is_success : ℕ → Bool
is_success status = leb 200 status && leb status 299

-- The outcome of a call that is answered with a status and a text.
pub data Answered (status : ℕ) : Text → Result Failure (Option Json) → Type 0 where
  content :
      (v : Json) (s : Text) → is_success status ≡ true → Says v s → Answered status s (ok (some v))
  no_content : is_success status ≡ true → Answered status [] (ok none)
  refused :
      (code message request_id s : Text)
      → is_success status ≡ false
      → message ≢ []
      → Says (problem_body code message request_id) s
      → Answered status s (
          err (
            api_error (record {
              status = status;
              message = message;
              code = some (string code);
              request_id = some (string request_id);
            })))
  unreadable :
      (s : Text)
      → is_success status ≡ false
      → parse s ≡ none
      → Answered status s (
          err (
            api_error (record {
              status = status;
              message = lit "Request failed with HTTP " ++ show status;
              code = none;
              request_id = none;
            })))

payload_of_lem : (s : Text) → payload_of s ≡ parse s
unfolding payload_of
payload_of_lem [] = unfold parse in refl
payload_of_lem (c ∷ s) = refl

-- A call that is answered with a status of success gives the value that the answer says, if its
-- text is JSON, and no value if the text is empty. Answered with another status it gives an error
-- with that status: the code, the message and the request id that the answer says, if its text is
-- JSON for an error as the control plane writes it and the message is not empty; and a message that
-- names the status, if the text is no JSON. A text of JSON may have blanks before, behind and
-- between its parts, and may escape any unit of a string, its code in small hexadecimal digits; the
-- keys of each object differ.
pub receive-Answered :
    (status : ℕ) (s : Text) (r : Result Failure (Option Json))
    → Answered status s r
    → receive (record { status = status; text = s }) ≡ r
unfolding receive
receive-Answered status s _ (content v _ y h) = rw (payload_of_lem s, parse-Says v s h, y) refl
receive-Answered status _ _ (no_content y) = unfold payload_of in rw y refl
receive-Answered status s _ (refused code [] request_id _ n e h) = absurd (e refl)
receive-Answered status s _ (refused code (d ∷ m) request_id _ n e h) =
    rw (payload_of_lem s, parse-Says (problem_body code (d ∷ m) request_id) s h, n)
      (unfold member lookup_field text_eq is_truthy to_string lit in refl)
receive-Answered status s _ (unreadable _ n e) = rw (payload_of_lem s, e, n) (unfold member in refl)
