-- ===== src/PathTracer/Spec.antt =====
-- Paths as the names of directories, and of a file where there is one.
use boba_os.Base.{ℕ, ◌<◌, ◌≢◌, Option, none, some, List, [], ◌∷◌, ◌++◌, length, All}
use boba_os.Text.{Chars}
use boba_os.PathTracer.{Part, part, directory, file}

-- A name has a character, and neither a slash nor a terminator among them.
abbrev pub PlainChar : ℕ → Type 0
PlainChar c = (c ≢ b'/') × (c ≢ 0)

abbrev pub IsName : Chars → Type 0
IsName s = (0 < length s) × All PlainChar s

abbrev pub OptionName : Option Chars → Type 0
OptionName none = Unit {0}
OptionName (some f) = IsName f

abbrev pub parts_of : List Chars → Option Chars → List Part
parts_of [] none = []
parts_of [] (some f) = part f file ∷ []
parts_of (d ∷ ds) f = part d directory ∷ parts_of ds f

-- What stands behind the C:/ of a path.
abbrev pub body : List Chars → Option Chars → Chars
body [] none = []
body [] (some f) = f
body (d ∷ ds) f = d ++ b'/' ∷ body ds f

abbrev pub path_of : ℕ → List Chars → Option Chars → Chars
path_of label ds f = label ∷ b':' ∷ b'/' ∷ body ds f
