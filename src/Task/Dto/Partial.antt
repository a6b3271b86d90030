-- ===== src/Task/Dto/Partial.antt =====
-- The three states of a nullable time of internal/modules/task/dto.go.
use go_fiber_starter.Prelude.{
  ◌≡◌, ◌≢◌, refl, true, false, Option, none, some, ap, arith, String, Bool-cases, ◌∙◌, inl, inr,
}
use go_fiber_starter.Apperror.{GoError}
use go_fiber_starter.Task.Model.{Time}
use go_fiber_starter.Task.Dto.{NullableTime, store_time, unmarshal_json}
use go_fiber_starter.Task.Service.{due_or}
use text.Mathlib.TextEquality.{eq_iff}
use text.Mathlib.Text.{◌==◌}

-- The zero value, before the field is read.
abbrev pub unset : NullableTime
unset = record { set = false; null = false; value = 0 }

store_time-null : (n : NullableTime) (r : Time × Option GoError) → (store_time n r).0.null ≡ n.null
store_time-null n (v, e) = refl

module _ (read_time : String → Time → Time × Option GoError) where
  unmarshal_once :
      (text : String) (v : Time)
      → text ≢ "null"
      → read_time text 0 ≡ (v, none)
      → unmarshal_json read_time unset text ≡ (record { set = true; null = false; value = v }, none)
  unfolding unmarshal_json
  unmarshal_once text v h k = ground (arith, eq_iff text "null", h, k)

  -- The three states of a due date in an update: a body without the member keeps the old one, a
  -- `null` clears it, and a time that is read, given once, replaces it.
  pub due_or-unmarshal_json :
      (text : String) (v : Time) (old : Option Time)
      → text ≢ "null"
      → read_time text 0 ≡ (v, none)
      → (due_or unset old ≡ old)
        × (due_or (unmarshal_json read_time unset "null").0 old ≡ none)
        × (due_or (unmarshal_json read_time unset text).0 old ≡ some v)
  unfolding unmarshal_json
  due_or-unmarshal_json text v old h k =
      (refl, refl, ap (λ n. due_or n.0 old) (unmarshal_once text v h k))

  -- The mark of `null` is never taken back: whatever is read after a `null` in the same body, the
  -- mark stays.
  pub unmarshal_after_null :
      (n : NullableTime) (text : String)
      → n.null ≡ true
      → (unmarshal_json read_time n text).0.null ≡ true
  unfolding unmarshal_json
  unmarshal_after_null n text h = elim (Bool-cases (text == "null")) [
    | inl e ↦ rw e refl
    | inr e ↦ rw e (store_time-null (record n { set = true }) (read_time text n.value) ∙ h)
  ]
