-- ===== src/Disk/Ops.antt =====
-- The calls of std::filesystem and of the file streams that the daemon makes.
use action_learning_p2p_vers.Prelude.{
  ℕ, ◌+◌, ◌-◌, ◌%◌, Bool, true, false, not, ◌&&◌, ◌||◌, List, [], ◌∷◌, ◌++◌, Option, none, some,
  ◌==◌, if◌then◌else◌, length, take, drop, replicate,
}
use action_learning_p2p_vers.Prelude.Text.{Text, text_eq, is_empty}
use action_learning_p2p_vers.Disk.Paths.{parent_path, prefixes}
use action_learning_p2p_vers.Disk.Nodes.{Nodes, Node, file, dir, lookup, insert, erase}
use action_learning_p2p_vers.Disk.Io.{
  Disk, node_at, ok, threw, Io, pure, throw, ◌>>=◌, ◌>>◌, next_fault,
}

-- The mode of a new file: rw-r--r--.
abbrev pub default_mode : ℕ
default_mode = 0o644

abbrev pub put : Text → Node → Disk → Disk
put p n d = record d { nodes = insert p n d.nodes }

abbrev pub unlink : Text → Disk → Disk
unlink p d = record d { nodes = erase p d.nodes }

-- The empty path stands for the current directory where it is the directory of a file. It and the
-- root always exist.
abbrev pub is_root : Text → Bool
is_root p = is_empty p || text_eq p (b'/' ∷ [])

abbrev pub is_slash : Text → Bool
is_slash p = text_eq p (b'/' ∷ [])

abbrev pub is_dir_node : Option Node → Bool
is_dir_node none = false
is_dir_node (some (file c m)) = false
is_dir_node (some dir) = true

abbrev pub is_dir_at : Text → Disk → Bool
is_dir_at p d = is_root p || is_dir_node (node_at p d)

abbrev pub is_some : Option Node → Bool
is_some none = false
is_some (some n) = true

-- Runs the call unless the operating system fails it.
abbrev pub may_throw : {A : Type 0} → Io A → Io A
may_throw m = next_fault >>= λ b. if b then throw else m

abbrev pub may_fail : Io Bool → Io Bool
may_fail m = next_fault >>= λ b. if b then pure false else m

-- `fs::exists(p)` and `fs::is_directory(p)`, which are false of the empty path.
unfoldable pub exists : Text → Io Bool
exists p = may_throw λ d. (ok (is_slash p || is_some (node_at p d)), d)

unfoldable pub is_directory : Text → Io Bool
is_directory p = may_throw λ d. (ok (is_slash p || is_dir_node (node_at p d)), d)

-- Some path lies below the directory `p`.
starts_below : Text → Text → Bool
starts_below [] [] = false
starts_below [] (c ∷ cs) = c == b'/'
starts_below (x ∷ xs) [] = false
starts_below (x ∷ xs) (y ∷ ys) = let rest = starts_below xs ys in if x == y then rest else false

unfoldable pub has_children : Text → Nodes → Bool
unfolding starts_below
has_children p [] = false
has_children p ((q, n) ∷ ns) = starts_below p q || has_children p ns

abbrev is_file_node : Option Node → Bool
is_file_node none = false
is_file_node (some (file c m)) = true
is_file_node (some dir) = false

-- One of the paths is a regular file.
unfoldable pub any_file : List Text → Nodes → Bool
unfolding lookup
any_file [] ns = false
any_file (p ∷ ps) ns = is_file_node (lookup p ns) || any_file ps ns

-- A directory on the way to the path is a regular file: ENOTDIR.
unfoldable pub is_blocked : Text → Nodes → Bool
unfolding any_file prefixes parent_path
is_blocked p ns = any_file (prefixes [] (parent_path p)) ns

unfoldable pub remove_node : Text → Option Node → Io Bool
unfolding has_children is_blocked
remove_node p none d = if is_blocked p d.nodes then (threw, d) else (ok false, d)
remove_node p (some (file c m)) d = (ok true, unlink p d)
remove_node p (some dir) d = if has_children p d.nodes then (threw, d) else (ok true, unlink p d)

-- `fs::remove(p)`: false where there is nothing, and an exception on a directory that is not empty
-- and where the path leads through a regular file.
unfoldable pub remove : Text → Io Bool
unfolding remove_node
remove p = may_throw λ d. remove_node p (node_at p d) d

abbrev pub lands : Option Node → Bool
lands none = true
lands (some (file c m)) = true
lands (some dir) = false

unfoldable pub rename_node : Text → Text → Option Node → Io (Unit {0})
rename_node a b none d = (threw, d)
rename_node a b (some dir) d = (threw, d)
rename_node a b (some (file c m)) d =
    if not (is_dir_at (parent_path b) d && lands (node_at b d))
    then (threw, d)
    else if text_eq a b
    then (ok tt, d)
    else (ok tt, put b (file c m) (unlink a d))

-- `fs::rename(a, b)` of a regular file, which is all that the daemon renames. It replaces `b` in
-- one step, and does nothing when it throws.
unfoldable pub rename : Text → Text → Io (Unit {0})
unfolding rename_node
rename a b = may_throw λ d. rename_node a b (node_at a d) d

unfoldable pub chmod_node : Text → ℕ → Option Node → Io (Unit {0})
chmod_node p mode none d = (threw, d)
chmod_node p mode (some (file c m)) d = (ok tt, put p (file c (mode % 4096)) d)
chmod_node p mode (some dir) d = (ok tt, d)

-- `fs::permissions(p, mode)` sets the bits within `fs::perms::mask`. The mode of a directory is not kept.
unfoldable pub permissions : Text → ℕ → Io (Unit {0})
unfolding chmod_node
permissions p mode = may_throw λ d. chmod_node p mode (node_at p d) d

unfoldable pub make_node : Text → Option Node → Io (Unit {0})
make_node p none d = (ok tt, put p dir d)
make_node p (some (file c m)) d = (threw, d)
make_node p (some dir) d = (ok tt, d)

unfoldable pub make_directory : Text → Io (Unit {0})
unfolding make_node
make_directory p d = if is_root p then (ok tt, d) else make_node p (node_at p d) d

unfoldable pub make_all : List Text → Io (Unit {0})
unfolding make_directory
make_all [] = pure tt
make_all (p ∷ ps) = make_directory p >> make_all ps

-- `fs::create_directories(p)`, an error on the empty path.
unfoldable pub create_directories : Text → Io (Unit {0})
unfolding make_all prefixes
create_directories p = may_throw (if is_empty p then throw else make_all (prefixes [] p))

unfoldable pub open_node : Text → Option Node → Io Bool
open_node p none d = (ok true, put p (file [] default_mode) d)
open_node p (some (file c m)) d = (ok true, put p (file [] m) d)
open_node p (some dir) d = (ok false, d)

-- `std::ofstream(p, std::ios::binary)`: creates or empties the file; false is the state of failure.
unfoldable pub open_truncate : Text → Io Bool
unfolding open_node
open_truncate p =
    may_fail λ d. if is_dir_at (parent_path p) d then open_node p (node_at p d) d else (ok false, d)

-- `std::ofstream(p, binary | in | out)`: the file must be there, and keeps its content.
unfoldable pub open_existing : Option Node → Io Bool
open_existing none d = (ok false, d)
open_existing (some (file c m)) d = (ok true, d)
open_existing (some dir) d = (ok false, d)

unfoldable pub open_update : Text → Io Bool
unfolding open_existing
open_update p = may_fail λ d. open_existing (node_at p d) d

unfoldable pub append_node : Text → Text → Option Node → Io Bool
append_node p bytes none d = (ok false, d)
append_node p bytes (some (file c m)) d = (ok true, put p (file (c ++ bytes) m) d)
append_node p bytes (some dir) d = (ok false, d)

-- `write` at the end of the file, where a stream stands that has written all there is.
unfoldable pub append : Text → Text → Io Bool
unfolding append_node
append p bytes = may_fail λ d. append_node p bytes (node_at p d) d

-- The content after `bytes` are written at an offset; a gap is filled with zeros.
unfoldable pub overwrite : Text → ℕ → Text → Text
overwrite c off bytes =
    take off (c ++ replicate (off - length c) 0) ++ (bytes ++ drop (off + length bytes) c)

unfoldable pub write_node : Text → ℕ → Text → Option Node → Io Bool
unfolding overwrite
write_node p off bytes none d = (ok false, d)
write_node p off bytes (some (file c m)) d = (ok true, put p (file (overwrite c off bytes) m) d)
write_node p off bytes (some dir) d = (ok false, d)

-- `seekp(off)` and `write`
unfoldable pub write_at : Text → ℕ → Text → Io Bool
unfolding write_node
write_at p off bytes = may_fail λ d. write_node p off bytes (node_at p d) d

unfoldable pub content_of : Option Node → Option Text
content_of none = none
content_of (some (file c m)) = some c
content_of (some dir) = some []

-- `std::ifstream(p, std::ios::binary)` and what can be read from it; `none` if it does not open. A
-- directory opens, and nothing can be read from it. A file that has been opened is read to its end.
unfoldable pub read_file : Text → Io (Option Text)
unfolding content_of
read_file p = next_fault >>= λ b. if b then pure none else λ d. (ok (content_of (node_at p d)), d)
