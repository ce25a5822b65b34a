-- ===== src/Tests/Client.antt =====
-- What single calls send.
use mathlib.Core.Bool.{and-eq-true_iff}
use oort.Prelude.{
  ◌≡◌, refl, inl, inr, true, not, ◌&&◌, none, some, List, [], ◌∷◌, ◌++◌, map, arith, leb, ◌==◌, all,
  All, All-append,
}
use oort.Text.{Text, lit, text_eq}
use oort.Api.{api_error}
use oort.Api.Call.{connect, job_logs}
use oort.Api.Request.{HttpResponse, receive}
use oort.Api.Request.Answers.{problem_body, refused, receive-Answered}
use oort.Api.Request.Laws.{HasMark, Sent, requests_of-HasMark}
use oort.Api.Request.Routes.{requests_of}
use oort.Api.Request.Tenancy.{Confined, requests_of-Confined}
use oort.Json.{object, end, string, lookup_field, unicode_escape}
use oort.Json.Parse.Layout.{
  Glyph, plain, coded, IsGlyph, Doc, string_doc, object_doc, Entries, no_entry, entry, value_of,
  text_of, IsDoc, Says,
}
use oort.Text.Uri.{encode_uri}
use oort.Sdk.{QueryRequest, query_body, query_request, query_response}
use oort.Sdk.Laws.{IsAddress, query_request-IsAddress, Outcome, query_response-Outcome}
use oort.Prog.{err}

requests_of-Confined_example : Confined (job_logs (lit "acme/../beta") (lit "j 1") 7)
requests_of-Confined_example = requests_of-Confined (job_logs (lit "acme/../beta") (lit "j 1") 7)

requests_of-HasMark_example : Sent HasMark (requests_of (connect (lit "secret")))
requests_of-HasMark_example = requests_of-HasMark (connect (lit "secret"))

abbrev denial : HttpResponse
denial = record {
  status = 403;
  text =
      lit
        "{\"error\":{\"code\":\"forbidden\",\"message\":\"No \\u003cadmin\\u003e\",\"request_id\":\"r1\"}}"
      ++ 10 ∷ [];
}

abbrev as_written : Text → List Glyph
as_written s = map plain s

-- A text without quotes, backslashes and control characters is written as it is.
as_written-IsGlyph :
    (s : Text)
    → all (λ c. not (c == 34) && not (c == 92) && leb 32 c) s ≡ true
    → All IsGlyph (as_written s)
as_written-IsGlyph [] h = tt
as_written-IsGlyph (c ∷ s) h =
    let (p, q) = (and-eq-true_iff (not (c == 34) && not (c == 92) && leb 32 c) _).0 h in
    ((ground (arith, p), ground (arith, p), ground (arith, p)), as_written-IsGlyph s q)

-- the glyphs of the message, as Go escapes it
abbrev message_glyphs : List Glyph
message_glyphs = as_written (lit "No ") ++ (coded 60 ∷ (as_written (lit "admin") ++ coded 62 ∷ []))

abbrev body_entries : Entries
body_entries =
    entry [] (as_written (lit "code")) [] [] (string_doc (as_written (lit "forbidden"))) [] (
      entry [] (as_written (lit "message")) [] [] (string_doc message_glyphs) [] (
        entry [] (as_written (lit "request_id")) [] [] (string_doc (as_written (lit "r1"))) []
          no_entry))

abbrev body_doc : Doc
body_doc =
    object_doc []
      (entry [] (as_written (lit "error")) [] [] (object_doc [] body_entries) [] no_entry)

message_glyphs-IsGlyph : All IsGlyph message_glyphs
unfolding lit
message_glyphs-IsGlyph =
    let admin = as_written (lit "admin") ++ coded 62 ∷ [] in
    let rest : All IsGlyph (coded 60 ∷ admin) = (
      omega arith,
      All-append IsGlyph (as_written (lit "admin")) (coded 62 ∷ [])
          (as_written-IsGlyph (lit "admin") refl) (omega arith, tt),
    ) in
    All-append IsGlyph (as_written (lit "No ")) (coded 60 ∷ admin)
      (as_written-IsGlyph (lit "No ") refl) rest

body_doc-IsDoc : IsDoc body_doc
unfolding IsDoc lookup_field text_eq lit value_of
body_doc-IsDoc = (
  tt,
  (
    tt,
    as_written-IsGlyph (lit "error") refl,
    tt,
    tt,
    (
      tt,
      (
        tt,
        as_written-IsGlyph (lit "code") refl,
        tt,
        tt,
        as_written-IsGlyph (lit "forbidden") refl,
        tt,
        (
          tt,
          as_written-IsGlyph (lit "message") refl,
          tt,
          tt,
          message_glyphs-IsGlyph,
          tt,
          (
            tt,
            as_written-IsGlyph (lit "request_id") refl,
            tt,
            tt,
            as_written-IsGlyph (lit "r1") refl,
            tt,
            tt,
            refl,
          ),
          refl,
        ),
        refl,
      ),
    ),
    tt,
    tt,
    refl,
  ),
)

says : Says (problem_body (lit "forbidden") (lit "No <admin>") (lit "r1")) denial.text
unfolding value_of text_of unicode_escape lit
says = ([], body_doc, 10 ∷ [], tt, body_doc-IsDoc, (inr (inr (inl refl)), tt), refl, refl)

receive-Answered_example :
    receive denial
    ≡ err (
        api_error (record {
          status = 403;
          message = lit "No <admin>";
          code = some (string (lit "forbidden"));
          request_id = some (string (lit "r1"));
        }))
unfolding lit
receive-Answered_example =
    receive-Answered 403 denial.text _
      (refused (lit "forbidden") (lit "No <admin>") (lit "r1") denial.text refl (λ e. cc) says)

abbrev request_of : QueryRequest
request_of = record {
  url = lit "/runtime/v1/queries/" ++ lit "a%2Fb";
  headers = (lit "content-type", lit "application/json") ∷ [];
  body = query_body (object end);
}

query_request-IsAddress_example : IsAddress [] (lit "a/b") request_of.url
unfolding query_request encode_uri lit
query_request-IsAddress_example =
    query_request-IsAddress [] (lit "a/b") (object end) request_of
      (omega arith, (omega arith, (omega arith, tt))) refl

query_response-Outcome_example :
    Outcome (lit "no JSON") 503 none (query_response (lit "no JSON") 503 none)
query_response-Outcome_example = query_response-Outcome (lit "no JSON") 503 none
