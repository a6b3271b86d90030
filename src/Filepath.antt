-- ===== src/Filepath.antt =====
-- Go's package path/filepath on the paths of Unix, as far as internal/database/database.go calls it.
mod Tests
pub mod Rooted
use Prim.Native.Char.{code}
use Prim.Native.String
use Prim.Native.String.{String}
use go_fiber_starter.Prelude
use go_fiber_starter.Apperror.{GoError}
use go_fiber_starter.Prelude.{Bool, true, false, List, [], ◌∷◌, Result, ok, err, if◌then◌else◌}
use go_fiber_starter.Prelude.Text.{◌<>◌}
use text.Mathlib.Text.{◌==◌}

abbrev in_first : String → List String → List String
in_first c [] = c ∷ []
in_first c (s ∷ ss) = (c <> s) ∷ ss

-- What stands before, between and behind the slashes.
unfoldable pub segments : String → List String
segments String.[] = "" ∷ []
segments (String.◌∷◌ c s) =
    if Prelude.◌==◌ (code c) b'/' then "" ∷ segments s else in_first (String.◌∷◌ c "") (segments s)

unfoldable pub is_rooted : String → Bool
is_rooted String.[] = false
is_rooted (String.◌∷◌ c s) = Prelude.◌==◌ (code c) b'/'

-- `..` takes the last element away. It stays at the start of a path that is not rooted, and is
-- dropped at the root.
abbrev up_from : (rooted : Bool) → List String → List String
up_from true [] = []
up_from false [] = ".." ∷ []
up_from rooted (s ∷ ss) = if s == ".." then ".." ∷ s ∷ ss else ss

-- One element, onto the elements so far, the last one first.
abbrev put : (rooted : Bool) → List String → String → List String
put rooted ss s =
    if s == "" then ss else if s == "." then ss else if s == ".." then up_from rooted ss else s ∷ ss

unfoldable resolve : (rooted : Bool) → List String → List String → List String
resolve rooted ss [] = ss
resolve rooted ss (s ∷ rest) = resolve rooted (put rooted ss s) rest

-- The elements of a stack, the last one first, with slashes between them, before a text.
unfoldable joined : List String → String → String
joined [] rest = rest
joined (s ∷ []) rest = s <> rest
joined (s ∷ t ∷ ss) rest = joined (t ∷ ss) ("/" <> s <> rest)

abbrev or_dot : String → String
or_dot s = if s == "" then "." else s

abbrev written : (rooted : Bool) → List String → String
unfolding resolve joined
written true ss = "/" <> joined (resolve true [] ss) ""
written false ss = or_dot (joined (resolve false [] ss) "")

-- filepath.Clean
unfoldable pub clean : String → String
unfolding segments is_rooted resolve joined
clean s = written (is_rooted s) (segments s)

abbrev without_last : List String → List String
without_last [] = []
without_last (s ∷ []) = []
without_last (s ∷ t ∷ ss) = s ∷ without_last (t ∷ ss)

-- filepath.Dir: the path up to the last slash, cleaned.
unfoldable pub dir : String → String
unfolding segments is_rooted resolve joined
dir s = written (is_rooted s) (without_last (segments s))

-- filepath.Join of two elements: an empty one at the start is left out.
unfoldable pub join : String → String → String
unfolding clean
join a b = if a == "" then (if b == "" then "" else clean b) else clean (a <> "/" <> b)

abbrev below : Result GoError String → String → Result GoError String
unfolding join
below (ok wd) path = ok (join wd path)
below (err e) path = err e

-- filepath.Abs, by what os.Getwd returns: it is asked where the path is not from the root.
unfoldable pub abs : (getwd : Result GoError String) → String → Result GoError String
unfolding clean join is_rooted
abs getwd path = if is_rooted path then ok (clean path) else below getwd path
