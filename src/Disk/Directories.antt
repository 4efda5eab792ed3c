-- ===== src/Disk/Directories.antt =====
-- `create_directories` where the directories are there, and what leaves them there.
use action_learning_p2p_vers.Prelude.{
  ℕ, ◌≡◌, refl, ap, ◌∙◌, Bool, true, false, ◌||◌, List, [], ◌∷◌, ◌++◌, Option, some, arith, All,
  ◌==◌, if◌then◌else◌, append_assoc, append-nil,
}
use action_learning_p2p_vers.Prelude.Text.{Text, text_eq, text_eq_iff, is_empty}
use action_learning_p2p_vers.Disk.Paths.{prefixes}
use action_learning_p2p_vers.Disk.Nodes.{Node, file, lookup-insert}
use action_learning_p2p_vers.Disk.Io.{Disk, node_at, ok}
use action_learning_p2p_vers.Disk.Ops

-- The directories that `create_directories` walks through are there.
abbrev pub DirsAt : List Text → Disk → Type 0
DirsAt ps d = All (λ p. Ops.is_dir_at p d ≡ true) ps

make_directory_present :
    (p : Text) (d : Disk) → Ops.is_dir_at p d ≡ true → Ops.make_directory p d ≡ (ok tt, d)
unfolding Ops.make_directory Ops.make_node
make_directory_present p d h = ground (arith)

make_all_present : (ps : List Text) (d : Disk) → DirsAt ps d → Ops.make_all ps d ≡ (ok tt, d)
unfolding Ops.make_all
make_all_present [] d h = refl
make_all_present (p ∷ ps) d h = rw (make_directory_present p d h.0) (make_all_present ps d h.1)

pub create_directories_present :
    (p : Text) (d : Disk)
    → d.faults ≡ []
    → is_empty p ≡ false
    → DirsAt (prefixes [] p) d
    → Ops.create_directories p d ≡ (ok tt, d)
unfolding Ops.create_directories
create_directories_present p d calm named dirs =
    rw (calm, named) (make_all_present (prefixes [] p) (record d { faults = [] }) dirs)

dir_after :
    (root same : Bool) (o : Option Node) (n : Node)
    → (root || Ops.is_dir_node o) ≡ true
    → (same ≡ true → Ops.is_dir_node o ≡ false)
    → (root || Ops.is_dir_node (if same then some n else o)) ≡ true
dir_after true same o n h other = refl
dir_after false true o n h other = absurd (cc (h, other refl))
dir_after false false o n h other = h

-- A file in place of what is no directory leaves the directories.
pub is_dir_at-put :
    (p t : Text) (c : Text) (m : ℕ) (d : Disk)
    → Ops.is_dir_node (node_at t d) ≡ false
    → Ops.is_dir_at p d ≡ true
    → Ops.is_dir_at p (Ops.put t (file c m) d) ≡ true
is_dir_at-put p t c m d free h = rw (lookup-insert p t (file c m) d.nodes) (
    dir_after (Ops.is_root p) (text_eq p t) (node_at p d) (file c m) h
      (λ same. ap (λ q. Ops.is_dir_node (node_at q d)) ((text_eq_iff p t).0 same) ∙ free))

pub DirsAt-put :
    (ps : List Text) (t : Text) (c : Text) (m : ℕ) (d : Disk)
    → Ops.is_dir_node (node_at t d) ≡ false
    → DirsAt ps d
    → DirsAt ps (Ops.put t (file c m) d)
DirsAt-put [] t c m d free h = h
DirsAt-put (p ∷ ps) t c m d free h =
    (is_dir_at-put p t c m d free h.0, DirsAt-put ps t c m d free h.1)

tail_dirs :
    (b : Bool) (p : Text) (ps : List Text) (d : Disk)
    → DirsAt (if b then p ∷ ps else ps) d
    → DirsAt ps d
tail_dirs true p ps d h = h.1
tail_dirs false p ps d h = h

-- The last of the directories is the whole path.
pub last_prefix :
    (done s : Text) (d : Disk) → DirsAt (prefixes done s) d → Ops.is_dir_at (done ++ s) d ≡ true
unfolding prefixes
last_prefix done [] d h = rw (append-nil done) h.0
last_prefix done (x ∷ xs) d h =
    rw (← append_assoc done (x ∷ []) xs)
      (last_prefix (done ++ x ∷ []) xs d (tail_dirs (x == b'/') done _ d h))
