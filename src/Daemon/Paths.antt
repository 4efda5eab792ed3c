-- ===== src/Daemon/Paths.antt =====
-- `normalize_path`, and the paths whose events the watch callback passes over.
use action_learning_p2p_vers.Prelude.{
  drop-append, ℕ, ◌-◌, ◌≡◌, refl, ap, Bool, true, false, ◌||◌, ◌&&◌, [], ◌∷◌, ◌++◌, arith, leb,
  ◌==◌, if◌then◌else◌, length, length-append, drop, map,
}
use action_learning_p2p_vers.Prelude.Text.{Text, text_eq, is_empty, codes}
use action_learning_p2p_vers.Transfer.Download.{tmp_of}

abbrev slash : ℕ → ℕ
slash c = if c == b'\\' then b'/' else c

abbrev pub normalize_path : Text → Text
normalize_path = map slash

abbrev starts_with_dot : Text → Bool
starts_with_dot [] = false
starts_with_dot (c ∷ cs) = c == b'.'

-- `find("/.") != npos`
has_hidden_part : Text → Bool
has_hidden_part [] = false
has_hidden_part (c ∷ []) = false
has_hidden_part (c ∷ x ∷ cs) = (c == b'/' && x == b'.') || has_hidden_part (x ∷ cs)

-- `size() >= 4 && substr(size() - 4) == ".tmp"`
abbrev ends_with_tmp : Text → Bool
ends_with_tmp p = leb 4 (length p) && text_eq (drop (length p - 4) p) (codes ".tmp")

-- The early returns of the callback on the path alone.
unfoldable pub is_ignored : Text → Bool
unfolding has_hidden_part text_eq
is_ignored p = is_empty p || (starts_with_dot p || has_hidden_part p) || ends_with_tmp p

normalize_path-append :
    (p s : Text) → normalize_path (p ++ s) ≡ normalize_path p ++ normalize_path s
normalize_path-append [] s = refl
normalize_path-append (c ∷ cs) s = ap (◌∷◌ (slash c)) (normalize_path-append cs s)

ends_with_tmp-append : (p : Text) → ends_with_tmp (p ++ codes ".tmp") ≡ true
unfolding text_eq
ends_with_tmp-append p =
    let grown = length-append p (codes ".tmp") in
    let long : leb 4 (length (p ++ codes ".tmp")) ≡ true = ground (arith, grown) in
    let cut : length (p ++ codes ".tmp") - 4 ≡ length p = omega (arith, grown) in
    rw (long, cut, drop-append p (codes ".tmp")) refl

-- An event on the temporary file of a transfer is passed over, whatever the file is called.
pub tmp_of-ignored : (path : Text) → is_ignored (normalize_path (tmp_of path)) ≡ true
unfolding is_ignored
tmp_of-ignored path =
    let tail : normalize_path (tmp_of path) ≡ normalize_path path ++ codes ".tmp" =
      normalize_path-append path (codes ".tmp") in
    ground (arith, tail, ends_with_tmp-append (normalize_path path))
