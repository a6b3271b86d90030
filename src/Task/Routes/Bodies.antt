-- ===== src/Task/Routes/Bodies.antt =====
-- What becomes of the titles that clients send to the task API.
use Prim.Native.String.{count}
use go_fiber_starter.Prelude.{
  ℕ, ◌<◌, ◌≡◌, refl, sym, ap, ◌∙◌, ◌⊎◌, inl, inr, none, some, List, [], ◌∷◌, Result, ok, err,
  String, arith, ltb, ◌==◌, Bool-cases, Option-cases, false,
}
use go_fiber_starter.Apperror.{
  GoError, FieldError, app, new_validation, with_cause, find_fiber, find_app, find_validation,
  as_app_error,
}
use go_fiber_starter.Fiber.{Request, Response}
use go_fiber_starter.Log.{Entry}
use go_fiber_starter.Payload.{Payload}
use go_fiber_starter.Validator.{StructValidator, bind_error_to_app_error}
use go_fiber_starter.Validator.Tags.{
  IsStructValidator, IsBind, Outcome, well, breaks, malformed, bind-Outcome, violations,
}
use go_fiber_starter.Router.ErrorHandler.{answer, error_handler}
use go_fiber_starter.Httpx.{error_body}
use go_fiber_starter.Task.Dto.{CreateRequest, UpdateRequest, create_fields, update_fields}
use go_fiber_starter.Task.Repository.{Repository}
use go_fiber_starter.Task.Service
use go_fiber_starter.Task.Handler.{
  Binder, Validates, Fits, FitsIfSet, parse_id, created_task, one_task,
}
use go_fiber_starter.Task.Routes.{Operation, create, update, run}
use go_fiber_starter.Task.Routes.Plain.{error_reply}

abbrev pub title_detail : String → List FieldError
title_detail tag = record { field = "Title"; actual_tag = tag } ∷ []

create_title_cases :
    (r : CreateRequest)
    → ((Fits r.title) × (violations (create_fields r) ≡ []))
      ⊎ ((count r.title ≡ 0) × (violations (create_fields r) ≡ title_detail "required"))
      ⊎ ((200 < count r.title) × (violations (create_fields r) ≡ title_detail "max"))
create_title_cases r = elim (Bool-cases (count r.title == 0)) [
  | inl empty ↦ inr (inl (ground arith, rw empty refl))
  | inr full ↦
      let long : ltb (count r.title) 1 ≡ false = ground arith in
      elim (Bool-cases (ltb 200 (count r.title))) [
        | inl above ↦ inr (inr (ground arith, rw (full, long, above) refl))
        | inr below ↦ inl ((ground arith, ground arith), rw (full, long, below) refl)
      ]
]

update_title_cases :
    (r : UpdateRequest)
    → ((FitsIfSet r.title) × (violations (update_fields r) ≡ []))
      ⊎ ((title : String) × (r.title ≡ some title)
          × (((count title ≡ 0) × (violations (update_fields r) ≡ title_detail "min"))
              ⊎ ((200 < count title) × (violations (update_fields r) ≡ title_detail "max"))))
update_title_cases r = elim (Option-cases r.title) [
  | inl unset ↦ inl (rw unset tt, rw unset refl)
  | inr (title, is_set) ↦ elim (Bool-cases (ltb (count title) 1)) [
    | inl empty ↦ inr (title, is_set, inl (ground arith, rw (is_set, empty) refl))
    | inr full ↦ elim (Bool-cases (ltb 200 (count title))) [
      | inl above ↦ inr (title, is_set, inr (ground arith, rw (is_set, full, above) refl))
      | inr below ↦ inl (rw is_set (ground arith, ground arith), rw (is_set, full, below) refl)
    ]
  ]
]

-- The response to a title that breaks a tag.
abbrev pub unprocessable : String → Response Payload
unprocessable reason =
    error_reply 422 "INVALID_REQUEST" "validation failed"
      (record { field = "Title"; reason = reason } ∷ [])

answer-bind :
    (c : Request) (e : GoError) (name : String) (logs : List Entry)
    → find_fiber e ≡ none
    → find_validation e ≡ some (title_detail name)
    → (answer Payload c (err (app (bind_error_to_app_error e))) logs).0 ≡ unprocessable name
unfolding answer error_handler bind_error_to_app_error find_fiber as_app_error find_app with_cause
    new_validation error_body
answer-bind c e name logs clean found = rw (found, clean) refl

-- A request whose title breaks a tag: nothing has changed, and the client is told the tag.
pub record IsUntitled {S : Type 0} (binder : Binder) (repo : Repository S) (name : String)
    (op : Operation) (c : Request) (s : S) (logs : List Entry) : Type 0 where
  pub response : (answer Payload c (run binder repo op c s).0 logs).0 ≡ unprocessable name
  pub state : (run binder repo op c s).1 ≡ s

-- The parser of the framework, and its binder over the validator.
pub record IsBinder (v : StructValidator) (binder : Binder)
    (parse_create : Request → Result GoError CreateRequest)
    (parse_update : Request → Result GoError UpdateRequest) : Type 0 where
  pub create_bind : IsBind v create_fields parse_create binder.create_request
  pub update_bind : IsBind v update_fields parse_update binder.update_request

module _ (v : StructValidator) (tags : IsStructValidator v) (binder : Binder)
    (parse_create : Request → Result GoError CreateRequest)
    (parse_update : Request → Result GoError UpdateRequest)
    (binds : IsBinder v binder parse_create parse_update) where
  create-Outcome : (c : Request) → Outcome create_fields (parse_create c) (binder.create_request c)
  create-Outcome =
      bind-Outcome v tags create_fields parse_create binder.create_request binds.create_bind

  update-Outcome : (c : Request) → Outcome update_fields (parse_update c) (binder.update_request c)
  update-Outcome =
      bind-Outcome v tags update_fields parse_update binder.update_request binds.update_bind

  -- The tags of the requests make the titles that are bound have 1 to 200 characters.
  pub IsBinder-Validates : Validates binder
  IsBinder-Validates = record {
    create_fits = λ c r b. elim (create-Outcome c) [
      | well r' p b' kept ↦
          let same : r' ≡ r = (let both = sym b' ∙ b in cc) in
          elim (create_title_cases r') [
            | inl (fits, none_broken) ↦ rw (← same) fits
            | inr (inl (size, named)) ↦ let no = sym kept ∙ named in cc
            | inr (inr (size, named)) ↦ let no = sym kept ∙ named in cc
          ]
      | breaks r' e p b' kept clean found ↦ let no = sym b' ∙ b in cc
      | malformed e p b' found ↦ let no = sym b' ∙ b in cc
    ];
    update_fits = λ c r b. elim (update-Outcome c) [
      | well r' p b' kept ↦
          let same : r' ≡ r = (let both = sym b' ∙ b in cc) in
          elim (update_title_cases r') [
            | inl (fits, none_broken) ↦ rw (← same) fits
            | inr (title, is, inl (size, named)) ↦ let no = sym kept ∙ named in cc
            | inr (title, is, inr (size, named)) ↦ let no = sym kept ∙ named in cc
          ]
      | breaks r' e p b' kept clean found ↦ let no = sym b' ∙ b in cc
      | malformed e p b' found ↦ let no = sym b' ∙ b in cc
    ];
  }

  module _ {S : Type 0} (repo : Repository S) where
    create-IsUntitled :
        (name : String) (c : Request) (e : GoError) (es : List FieldError) (s : S)
        (logs : List Entry)
        → binder.create_request c ≡ err e
        → find_fiber e ≡ none
        → find_validation e ≡ some es
        → es ≡ title_detail name
        → IsUntitled binder repo name create c s logs
    unfolding run
    create-IsUntitled name c e es s logs b clean found named = record {
      response = rw b (answer-bind c e name logs clean (found ∙ ap some named));
      state = rw b refl;
    }

    update-IsUntitled :
        (name : String) (c : Request) (i : ℕ) (e : GoError) (es : List FieldError) (s : S)
        (logs : List Entry)
        → parse_id c.param_id ≡ ok i
        → binder.update_request c ≡ err e
        → find_fiber e ≡ none
        → find_validation e ≡ some es
        → es ≡ title_detail name
        → IsUntitled binder repo name update c s logs
    unfolding run
    update-IsUntitled name c i e es s logs p b clean found named = record {
      response = rw (p, b) (answer-bind c e name logs clean (found ∙ ap some named));
      state = rw (p, b) refl;
    }

    -- A creation whose body is parsed goes on to the service if its title has 1 to 200 characters. Else
    -- nothing changes, and the client gets a 422 with INVALID_REQUEST and one detail, which names the
    -- field Title with the reason required if the title is empty and max if it is longer. The binder
    -- is that of the framework over the struct validator, and both behave as documented.
    pub create_titled :
        (c : Request) (r : CreateRequest) (s : S) (logs : List Entry)
        → parse_create c ≡ ok r
        → ((Fits r.title)
            × (run binder repo create c s
                ≡ (created_task (Service.create repo r s).0, (Service.create repo r s).1)))
          ⊎ ((count r.title ≡ 0) × IsUntitled binder repo "required" create c s logs)
          ⊎ ((200 < count r.title) × IsUntitled binder repo "max" create c s logs)
    unfolding run
    create_titled c r s logs parsed = elim (create-Outcome c) [
      | well r' p b kept ↦
          let same : r' ≡ r = (let both = sym p ∙ parsed in cc) in
          elim (create_title_cases r') [
            | inl (fits, none_broken) ↦ inl (rw (← same) fits, rw (b, ← same) refl)
            | inr (inl (size, named)) ↦ let no = sym kept ∙ named in cc
            | inr (inr (size, named)) ↦ let no = sym kept ∙ named in cc
          ]
      | breaks r' e p b kept clean found ↦
          let same : r' ≡ r = (let both = sym p ∙ parsed in cc) in
          elim (create_title_cases r') [
            | inl (fits, none_broken) ↦ absurd (kept none_broken)
            | inr (inl (size, named)) ↦ inr (
                inl
                  (rw (← same) size, create-IsUntitled "required" c e _ s logs b clean found named))
            | inr (inr (size, named)) ↦
                inr
                  (inr (rw (← same) size, create-IsUntitled "max" c e _ s logs b clean found named))
          ]
      | malformed e p b found ↦ let no = sym p ∙ parsed in cc
    ]

    -- An update with a good path and a body that is parsed goes on to the service if it has no title or
    -- one of 1 to 200 characters. Else nothing changes, and the client gets a 422 with INVALID_REQUEST
    -- and one detail, which names the field Title with the reason min if the title is empty and max if
    -- it is longer. The binder is that of the framework over the struct validator, and both behave as
    -- documented.
    pub update_titled :
        (c : Request) (i : ℕ) (r : UpdateRequest) (s : S) (logs : List Entry)
        → parse_id c.param_id ≡ ok i
        → parse_update c ≡ ok r
        → ((FitsIfSet r.title)
            × (run binder repo update c s
                ≡ (one_task (Service.update repo i r s).0, (Service.update repo i r s).1)))
          ⊎ ((title : String) × (r.title ≡ some title)
              × (((count title ≡ 0) × IsUntitled binder repo "min" update c s logs)
                  ⊎ ((200 < count title) × IsUntitled binder repo "max" update c s logs)))
    unfolding run
    update_titled c i r s logs key parsed = elim (update-Outcome c) [
      | well r' p b kept ↦
          let same : r' ≡ r = (let both = sym p ∙ parsed in cc) in
          elim (update_title_cases r') [
            | inl (fits, none_broken) ↦ inl (rw (← same) fits, rw (key, b, ← same) refl)
            | inr (title, is, inl (size, named)) ↦ let no = sym kept ∙ named in cc
            | inr (title, is, inr (size, named)) ↦ let no = sym kept ∙ named in cc
          ]
      | breaks r' e p b kept clean found ↦
          let same : r' ≡ r = (let both = sym p ∙ parsed in cc) in
          elim (update_title_cases r') [
            | inl (fits, none_broken) ↦ absurd (kept none_broken)
            | inr (title, is, inl (size, named)) ↦ inr (
              title,
              rw (← same) is,
              inl (size, update-IsUntitled "min" c i e _ s logs key b clean found named),
            )
            | inr (title, is, inr (size, named)) ↦ inr (
              title,
              rw (← same) is,
              inr (size, update-IsUntitled "max" c i e _ s logs key b clean found named),
            )
          ]
      | malformed e p b found ↦ let no = sym p ∙ parsed in cc
    ]
