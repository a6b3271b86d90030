-- ===== src/Filepath/Tests.antt =====
-- The functions on paths at concrete inputs.
use go_fiber_starter.Prelude.{◌≡◌, refl, ok}
use go_fiber_starter.Filepath.{clean, dir, abs}

clean_tests :
    (clean "" ≡ ".")
    × (clean "a//b/./c" ≡ "a/b/c")
    × (clean "a/../../b/" ≡ "../b")
    × (clean "/../a/../.." ≡ "/")
    × (clean "../../x/.." ≡ "../..")
    × (clean "./" ≡ ".")
unfolding clean
clean_tests = (refl, refl, refl, refl, refl, refl)

dir_tests :
    (dir "/data/app.db" ≡ "/data")
    × (dir "/app.db" ≡ "/")
    × (dir "app.db" ≡ ".")
    × (dir "a/b/" ≡ "a/b")
    × (dir "" ≡ ".")
unfolding dir
dir_tests = (refl, refl, refl, refl, refl)

abs_tests :
    (abs (ok "/srv") "data/../app.db" ≡ ok "/srv/app.db")
    × (abs (ok "/srv") "/app.db" ≡ ok "/app.db")
    × (abs (ok "/srv") "" ≡ ok "/srv")
    × (abs (ok "/srv") ":memory:" ≡ ok "/srv/:memory:")
unfolding abs
abs_tests = (refl, refl, refl, refl)
