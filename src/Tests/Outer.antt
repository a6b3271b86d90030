-- ===== src/Tests/Outer.antt =====
-- The theorems on the whole chain, with an outer part that compares origins as texts.
use go_fiber_starter.Prelude.{
  ◌≡◌, ◌≢◌, refl, ◌⊎◌, inl, inr, Bool, true, false, List, [], ◌∷◌, ok, String, All, Any,
  if◌then◌else◌, Bool-cases,
}
use text.Mathlib.Text.{◌==◌}
use text.Mathlib.TextEquality.{eq_iff}
use go_fiber_starter.Apperror.{plain}
use go_fiber_starter.Config.{Config, validate}
use go_fiber_starter.Task.Model.{Task}
use go_fiber_starter.Router.Chain.Panics.{Panicking, panicked, returning}
use go_fiber_starter.Router.Chain.Panics
use go_fiber_starter.Router.Chain.Outer.{
  Headers, Arrival, Verdict, passes, headers_of, Outer, IsOuter, allow_origin_header,
  request_id_header, serve_whole,
}
use go_fiber_starter.Router.Chain.Origins.{IsNamed, IsAny, serve_whole-IsNamed}
use go_fiber_starter.Router.Chain.Traced.{Adds, serve_whole-Adds}
use go_fiber_starter.Tests.Settings.{production}
use go_fiber_starter.Tests.Service.{parts, world, reading}

abbrev same : String → String → Bool
same entry origin = entry == origin

abbrev within : List String → String → Bool
within [] origin = false
within (o ∷ os) origin = if o == origin then true else within os origin

abbrev starred : List String → Bool
starred [] = false
starred (o ∷ os) = if o == "*" then true else starred os

abbrev own_header : List String → String → Headers
own_header os origin =
    if starred os
    then (allow_origin_header, "*") ∷ []
    else if within os origin
    then (allow_origin_header, origin) ∷ []
    else []

abbrev cors : List String → String → Verdict
cors [] origin = passes ((allow_origin_header, "*") ∷ [])
cors (o ∷ os) origin = passes (own_header (o ∷ os) origin)

abbrev outer : Outer
outer = record {
  request_id = λ a. "id-1";
  helmet = λ a. ("X-Frame-Options", "SAMEORIGIN") ∷ [];
  cors = λ os a. cors os a.origin;
}

unstarred : (os : List String) → All (λ o. o ≢ "*") os → starred os ≡ false
unstarred [] h = refl
unstarred (o ∷ os) (other, h) = elim (Bool-cases (o == "*")) [
  | inl y ↦ absurd (other ((eq_iff o "*").0 y))
  | inr n ↦ rw n (unstarred os h)
]

within_some :
    (os : List String) (origin : String)
    → within os origin ≡ true
    → Any (λ o. same o origin ≡ true) os
within_some [] origin h = cc
within_some (o ∷ os) origin h = elim (Bool-cases (o == origin)) [
  | inl y ↦ inl y
  | inr n ↦ inr (within_some os origin (rw n at h))
]

own_header-IsNamed :
    (os : List String) (origin : String)
    → All (λ o. o ≢ "*") os
    → IsNamed same os origin (own_header os origin)
own_header-IsNamed os origin plain_entries = elim (Bool-cases (within os origin)) [
  | inl y ↦ rw (unstarred os plain_entries, y) (inr (refl, within_some os origin y), tt)
  | inr n ↦ rw (unstarred os plain_entries, n) tt
]

cors_listed :
    (os : List String) (origin : String)
    → os ≢ []
    → All (λ o. o ≢ "*") os
    → IsNamed same os origin (headers_of (cors os origin))
cors_listed [] origin some plain_entries = absurd (some refl)
cors_listed (o ∷ os) origin some plain_entries = own_header-IsNamed (o ∷ os) origin plain_entries

outer-IsOuter : IsOuter outer same
outer-IsOuter = record {
  any_origin = λ a named. inl refl;
  listed = λ os a some plain_entries. cors_listed os a.origin some plain_entries;
  helmet_other = λ a. (λ e. cc, tt);
}

abbrev arrival : Arrival
arrival = record { request = reading; origin = "https://tasks.example"; requested_method = "" }

-- It fails before it has done anything.
abbrev broken : Panicking (List Task)
broken c ts = (panicked (plain "nil map"), ts)

-- A configuration of production without an origin.
abbrev unlisted : Config
unlisted = record production { cors_allowed_origins = [] }

unlisted_accepted : validate unlisted ≡ ok tt
unfolding validate
unlisted_accepted = refl

production_accepted : validate production ≡ ok tt
unfolding validate
production_accepted = refl

serve_whole-IsNamed_example :
    ((production.cors_allowed_origins ≡ [])
      × IsAny
          (serve_whole parts production outer (Panics.on_inner broken) arrival (world 3)).0.headers)
    ⊎ ((production.cors_allowed_origins ≢ [])
        × IsNamed same production.cors_allowed_origins "https://tasks.example"
            (serve_whole parts production outer
              (Panics.on_inner broken)
              arrival
              (world 3)).0.headers)
serve_whole-IsNamed_example =
    serve_whole-IsNamed parts production outer same outer-IsOuter production_accepted refl
      (Panics.on_inner broken) arrival (world 3) (λ e. cc)

serve_whole-Adds_example :
    Adds "id-1" []
      (serve_whole parts production outer (Panics.on_inner broken) arrival (world 3)).1.logs
    × Any
        (λ x. x ≡ (request_id_header, "id-1"))
        (serve_whole parts production outer (Panics.on_inner broken) arrival (world 3)).0.headers
serve_whole-Adds_example =
    serve_whole-Adds parts production outer broken arrival (world 3) (λ e. cc)
