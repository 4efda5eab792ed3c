-- ===== src/Disk/Paths.antt =====
-- std::filesystem::path on POSIX, over texts.
use action_learning_p2p_vers.Prelude.{
  ◌≡◌, refl, ap, Bool, true, false, List, [], ◌∷◌, ◌++◌, Option, none, some, ◌==◌, if◌then◌else◌,
}
use action_learning_p2p_vers.Prelude.Text.{Text}

abbrev pub is_absolute : Text → Bool
is_absolute [] = false
is_absolute (c ∷ cs) = c == b'/'

-- A path has a last component to which a separator must be added.
abbrev pub has_filename : Text → Bool
has_filename [] = false
has_filename (c ∷ []) = if c == b'/' then false else true
has_filename (c ∷ d ∷ cs) = has_filename (d ∷ cs)

-- `fs::path(a) / b`
unfoldable pub path_join : Text → Text → Text
path_join a b = if is_absolute b then b else if has_filename a then a ++ (b'/' ∷ b) else a ++ b

unfoldable pub before_last_slash : Text → Option Text
before_last_slash [] = none
before_last_slash (c ∷ cs) = elim (before_last_slash cs) [
  | some r ↦ some (c ∷ r)
  | none ↦ if c == b'/' then some [] else none
]

abbrev parent_of : Option Text → Text
parent_of none = []
parent_of (some []) = b'/' ∷ []
parent_of (some (c ∷ r)) = c ∷ r

-- `path.parent_path()`
unfoldable pub parent_path : Text → Text
unfolding before_last_slash
parent_path p = parent_of (before_last_slash p)

-- The directories that `create_directories` walks through, the shortest first.
unfoldable pub prefixes : Text → Text → List Text
prefixes done [] = done ∷ []
prefixes done (c ∷ cs) =
    let rest = prefixes (done ++ c ∷ []) cs in if c == b'/' then done ∷ rest else rest

before_last_slash-append :
    (p s : Text) → before_last_slash s ≡ none → before_last_slash (p ++ s) ≡ before_last_slash p
unfolding before_last_slash
before_last_slash-append [] s h = h
before_last_slash-append (c ∷ cs) s h = rw (before_last_slash-append cs s h) refl

-- What is put behind the name of a file leaves its directory as it was.
pub parent_path-append :
    (p s : Text) → before_last_slash s ≡ none → parent_path (p ++ s) ≡ parent_path p
unfolding parent_path
parent_path-append p s h = ap parent_of (before_last_slash-append p s h)
