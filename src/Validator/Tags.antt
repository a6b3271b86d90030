-- ===== src/Validator/Tags.antt =====
-- What the tags of a struct ask for, and what a body that is bound comes to.
use Prim.Native.String.{count}
use go_fiber_starter.Prelude.{
  ℕ, ◌≡◌, ◌≢◌, refl, ◌⊎◌, inl, inr, Option, none, some, List, [], ◌∷◌, Result, ok, err,
  Result-cases, ltb, ◌==◌, if◌then◌else◌, String,
}
use go_fiber_starter.Apperror.{GoError, FieldError, find_validation, find_fiber}
use go_fiber_starter.Fiber.{Request}
use go_fiber_starter.Validator.{
  Rule, required, omitempty, min, max, Field, StructValidator, validate,
}

abbrev pub tag : Rule → String
tag required = "required"
tag omitempty = "omitempty"
tag (min n) = "min"
tag (max n) = "max"

-- The number of characters.
abbrev pub size : Option String → ℕ
size none = 0
size (some text) = count text

-- The first tag that a value breaks. A tag behind `omitempty` does not concern a nil pointer.
abbrev pub broken : List Rule → Option String → Option Rule
broken [] v = none
broken (required ∷ rules) v = if size v == 0 then some required else broken rules v
broken (omitempty ∷ rules) none = none
broken (omitempty ∷ rules) (some text) = broken rules (some text)
broken (min n ∷ rules) v = if ltb (size v) n then some (min n) else broken rules v
broken (max n ∷ rules) v = if ltb n (size v) then some (max n) else broken rules v

abbrev pub violation : String → Option Rule → List FieldError → List FieldError
violation name none rest = rest
violation name (some rule) rest = record { field = name; actual_tag = tag rule } ∷ rest

-- The violations of all fields, in the order of the struct.
abbrev pub violations : List Field → List FieldError
violations [] = []
violations (f ∷ fields) = violation f.name (broken f.rules f.value) (violations fields)

-- What the documentation of the library says of the tags above.
pub record IsStructValidator (v : StructValidator) : Type 0 where
  pub accepts : (fields : List Field) → violations fields ≡ [] → v.struct fields ≡ none
  pub rejects :
      (fields : List Field)
      → violations fields ≢ []
      → (e : GoError) × (v.struct fields ≡ some e)
        × (find_validation e ≡ some (violations fields))
        × (find_fiber e ≡ none)

-- What the documentation of the framework says of `c.Bind().Body`: the body is parsed, and what it
-- holds goes to the method Validate. A failure of the parser is no violation of a tag.
pub record IsBind {A : Type 0} (v : StructValidator) (fields : A → List Field)
    (parse bind : Request → Result GoError A) : Type 0 where
  pub unparsed :
      (c : Request) (e : GoError) → parse c ≡ err e → (bind c ≡ err e) × (find_validation e ≡ none)
  pub passed : (c : Request) (r : A) → parse c ≡ ok r → validate v (fields r) ≡ none → bind c ≡ ok r
  pub failed :
      (c : Request) (r : A) (e : GoError)
      → parse c ≡ ok r
      → validate v (fields r) ≡ some e
      → bind c ≡ err e

-- What a body comes to: it is bound and keeps the tags; or it breaks them, and the error has one
-- violation for each field that does, by the first tag that it breaks; or it is not parsed.
pub data Outcome {A : Type 0} (fields : A → List Field) (p b : Result GoError A) : Type 0 where
  well : (r : A) → p ≡ ok r → b ≡ ok r → violations (fields r) ≡ [] → Outcome fields p b
  breaks :
      (r : A) (e : GoError)
      → p ≡ ok r
      → b ≡ err e
      → violations (fields r) ≢ []
      → find_fiber e ≡ none
      → find_validation e ≡ some (violations (fields r))
      → Outcome fields p b
  malformed : (e : GoError) → p ≡ err e → b ≡ err e → find_validation e ≡ none → Outcome fields p b

empty_or : (xs : List FieldError) → (xs ≡ []) ⊎ (xs ≢ [])
empty_or [] = inl refl
empty_or (x ∷ xs) = inr (λ e. cc)

module _ {A : Type 0} (v : StructValidator) (laws : IsStructValidator v) (fields : A → List Field)
    (parse bind : Request → Result GoError A) (bound : IsBind v fields parse bind) where
  pub bind-Outcome : (c : Request) → Outcome fields (parse c) (bind c)
  unfolding validate
  bind-Outcome c = elim (Result-cases (parse c)) [
    | inr (e, p) ↦ let (b, no_violation) = bound.unparsed c e p in malformed e p b no_violation
    | inl (r, p) ↦ elim (empty_or (violations (fields r))) [
      | inl none_broken ↦
          well r p (bound.passed c r p (laws.accepts (fields r) none_broken)) none_broken
      | inr some_broken ↦
          let (e, failed, found, clean) = laws.rejects (fields r) some_broken in
          breaks r e p (bound.failed c r e p failed) some_broken clean found
    ]
  ]
