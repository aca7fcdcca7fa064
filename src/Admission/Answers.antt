-- ===== src/Admission/Answers.antt =====
-- What the HTTP handler of admission.go answers.
use machine_controller.Base.{String, ◌≡◌, refl, true, false, Option, none, some, List, ◌==◌, arith}
use machine_controller.Outcome.{
  Error, new_error, on_option, Outcome, ok, err, Act, raise, lift, wrap, ◌>>=◌, ◌>>◌,
}
use machine_controller.Outcome.Inversion.{>>=-eq-ok, >>-eq-ok, wrap-eq-ok}
use machine_controller.Admission.Machines.{Request, Question}
use machine_controller.Admission.Immutability.{lift-eq-ok}
use machine_controller.Admission.Review.{
  Response, HttpRequest, check_content_type, execute_body, admission_executor, handle,
}

json_only :
    (content_type : String) (s : List Question)
    → (check_content_type content_type s).0 ≡ ok tt
    → (content_type == "application/json") ≡ true
unfolding check_content_type ◌>>=◌
json_only content_type s e = ground (arith, e)

module _ (read_all : String → Outcome String) (decode : String → Outcome Request)
    (mutate : Request → Act Question Response) where
  -- A request with a body in JSON that decodes to an admission review, on which the webhook
  -- answered `response`.
  abbrev pub IsAnswered : HttpRequest → Response → Type 0
  IsAnswered request response =
      (body text : String) × (review : Request) × (s : List Question) × (request.body ≡ some body)
      × ((request.content_type == "application/json") ≡ true)
      × (read_all body ≡ ok text)
      × (decode text ≡ ok review)
      × ((mutate review s).0 ≡ ok response)

  execute_body-IsAnswered :
      (request : HttpRequest) (body : String) (s : List Question) (response : Response)
      → request.body ≡ some body
      → (execute_body read_all decode mutate request.content_type body s).0 ≡ ok response
      → IsAnswered request response
  unfolding execute_body
  execute_body-IsAnswered request body s response given h =
      let (text, read, rest) =
        >>=-eq-ok (wrap "error reading data from request body" (lift (read_all body)))
          (λ text.
            check_content_type request.content_type
            >> (wrap "failed to unmarshal request into admissionReview" (lift (decode text))
                >>= λ review. wrap "defaulting or validation failed" (mutate review)))
          s response h in
      let (checked, rest) =
        >>-eq-ok (check_content_type request.content_type)
          (wrap "failed to unmarshal request into admissionReview" (lift (decode text))
            >>= λ review. wrap "defaulting or validation failed" (mutate review))
          _ response rest in
      let (review, decoded, rest) =
        >>=-eq-ok (wrap "failed to unmarshal request into admissionReview" (lift (decode text)))
          (λ review. wrap "defaulting or validation failed" (mutate review)) _ response rest in
      (
        body,
        text,
        review,
        _,
        given,
        is_json _ checked,
        lift-eq-ok (read_all body) s text
            (wrap-eq-ok "error reading data from request body" (lift (read_all body)) s text read),
        lift-eq-ok (decode text) _ review (
            wrap-eq-ok "failed to unmarshal request into admissionReview" (lift (decode text)) _
              review decoded),
        wrap-eq-ok "defaulting or validation failed" (mutate review) _ response rest,
      )
    where
      is_json :
          (s : List Question)
          → (check_content_type request.content_type s).0 ≡ ok tt
          → (request.content_type == "application/json") ≡ true
      is_json s e = json_only request.content_type s e

  executor-IsAnswered :
      (request : HttpRequest) (s : List Question) (response : Response)
      → (admission_executor read_all decode mutate request s).0 ≡ ok response
      → IsAnswered request response
  unfolding admission_executor ◌>>=◌
  executor-IsAnswered request s response h = go request.body refl h
    where
      go :
          (o : Option String)
          → request.body ≡ o
          → (on_option o
              (raise (new_error "request has no body"))
              (execute_body read_all decode mutate request.content_type)
              s).0
            ≡ ok response
          → IsAnswered request response
      go none e h = cc
      go (some body) e h = execute_body-IsAnswered request body s response e h

  -- A response that allows the request is the answer of the webhook to an admission review that
  -- came as JSON; an error on the way is answered with a refusal that has it as its message.
  pub handle-IsAnswered :
      (request : HttpRequest) (s : List Question)
      → ((response : Response)
          → handle read_all decode mutate request s ≡ ok response
          → response.allowed ≡ true
          → IsAnswered request response)
        × ((e : Error)
            → (admission_executor read_all decode mutate request s).0 ≡ err e
            → handle read_all decode mutate request s
              ≡ ok (record { allowed = false; patch = none; message = some e }))
  unfolding handle
  handle-IsAnswered request s = (
    λ response answered allowed.
        executor-IsAnswered request s response (ground (arith, answered, allowed)),
    λ e failed. ground (arith, failed),
  )
