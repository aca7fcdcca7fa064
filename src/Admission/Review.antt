-- ===== src/Admission/Review.antt =====
-- pkg/admission/admission.go: the HTTP handler around the webhooks, and the response.
use machine_controller.Base.{
  String, Bool, true, false, Option, none, some, List, ◌==◌, if◌then◌else◌,
}
use machine_controller.Outcome.{
  Error, wrapped, new_error, Outcome, ok, err, panicked, Act, pure, raise, lift, wrap, on_option,
  ◌>>=◌, ◌>>◌,
}
use machine_controller.Admission.Machines.{Request, Question}

pub record Response : Type 0 where
  pub allowed : Bool
  pub patch : Option String
  pub message : Option Error

-- An HTTP request: its body, `none` where that is nil, and its content type.
pub record HttpRequest : Type 0 where
  pub body : Option String
  pub content_type : String

-- The comparison of two objects and their JSON patch.
pub record Patcher (A : Type 0) : Type 0 where
  pub equal : A → A → Bool
  pub json_patch : A → A → Outcome String

unfoldable pub create_admission_response : {A : Type 0} → Patcher A → A → A → Outcome Response
create_admission_response p original current =
    if p.equal original current
    then ok (record { allowed = true; patch = none; message = none })
    else elim (p.json_patch original current) [
      | ok raw ↦ ok (record { allowed = true; patch = some raw; message = none })
      | err e ↦ err (wrapped "failed to create json patch" e)
      | panicked ↦ panicked
    ]

unfoldable pub respond :
    {A : Type 0} → Patcher A → (Request → Act Question (A × A)) → Request → Act Question Response
respond p mutate request =
    mutate request >>= λ (original, current). lift (create_admission_response p original current)

-- The test of `admissionExecutor` on the content type.
unfoldable pub check_content_type : String → Act Question (Unit {0})
check_content_type content_type =
    if content_type == "application/json"
    then pure tt
    else raise (new_error "header Content-Type was unexpected")

-- `read_all` is `ioutil.ReadAll`, `decode` is `json.Unmarshal` of an admission review.
module _ (read_all : String → Outcome String) (decode : String → Outcome Request)
    (mutate : Request → Act Question Response) where
  -- `admissionExecutor` once there is a body.
  unfoldable pub execute_body : String → String → Act Question Response
  execute_body content_type body =
      wrap "error reading data from request body" (lift (read_all body)) >>= λ text.
      check_content_type content_type
      >> (wrap "failed to unmarshal request into admissionReview" (lift (decode text)) >>= λ review.
          wrap "defaulting or validation failed" (mutate review))

  unfoldable pub admission_executor : HttpRequest → Act Question Response
  admission_executor request =
      on_option request.body (raise (new_error "request has no body"))
        (execute_body request.content_type)

  -- The function of `handleFuncFactory`, up to the JSON of its answer.
  unfoldable pub handle : HttpRequest → List Question → Outcome Response
  handle request s = elim (admission_executor request s).0 [
    | ok response ↦ ok response
    | err e ↦ ok (record { allowed = false; patch = none; message = some e })
    | panicked ↦ panicked
  ]
