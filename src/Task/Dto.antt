-- ===== src/Task/Dto.antt =====
-- internal/modules/task/dto.go: the requests and responses of the task API.
pub mod Partial
use go_fiber_starter.Prelude.{
  ℕ, Bool, true, false, Option, none, some, List, [], ◌∷◌, Result, ok, err, if◌then◌else◌, String,
}
use go_fiber_starter.Apperror.{GoError}
use go_fiber_starter.Validator.{Field, required, omitempty, min, max}
use go_fiber_starter.Task.Model.{Time, Task}
use text.Mathlib.Text.{◌==◌}

pub record CreateRequest : Type 0 where
  pub title : String
  pub due_date : Option Time

-- The field with tags of a CreateRequest.
abbrev pub create_fields : CreateRequest → List Field
create_fields r =
    record { name = "Title"; value = some r.title; rules = required ∷ min 1 ∷ max 200 ∷ [] } ∷ []

pub record NullableTime : Type 0 where
  pub set : Bool
  pub null : Bool
  pub value : Time

pub record UpdateRequest : Type 0 where
  pub title : Option String
  pub done : Option Bool
  pub due_date : NullableTime

-- The field with tags of an UpdateRequest.
abbrev pub update_fields : UpdateRequest → List Field
update_fields r =
    record { name = "Title"; value = r.title; rules = omitempty ∷ min 1 ∷ max 200 ∷ [] } ∷ []

pub record Response : Type 0 where
  pub id : ℕ
  pub title : String
  pub done : Bool
  pub due_date : Option Time
  pub created_at : Time
  pub updated_at : Time

abbrev pub store_time : NullableTime → Time × Option GoError → NullableTime × Option GoError
store_time n (v, e) = (record n { value = v }, e)

-- `read_time` is `json.Unmarshal` into a `time.Time`: what it leaves of the old one, and its error.
unfoldable pub unmarshal_json :
    (read_time : String → Time → Time × Option GoError)
    → NullableTime
    → String
    → NullableTime × Option GoError
unmarshal_json read_time n text =
    if text == "null"
    then (record n { set = true; null = true }, none)
    else store_time (record n { set = true }) (read_time text n.value)

unfoldable pub to_response : Task → Response
to_response t = record {
  id = t.id;
  title = t.title;
  done = t.done;
  due_date = t.due_date;
  created_at = t.created_at;
  updated_at = t.updated_at;
}

unfoldable pub to_responses : List Task → List Response
unfolding to_response
to_responses [] = []
to_responses (t ∷ ts) = to_response t ∷ to_responses ts
