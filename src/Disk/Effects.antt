-- ===== src/Disk/Effects.antt =====
-- What each call does to the regular files, on success and on failure.
use action_learning_p2p_vers.Prelude.{
  ℕ, ◌≡◌, refl, ◌≢◌, ◌∙◌, Bool, ◌&&◌, ◌||◌, true, false, List, [], ◌∷◌, Option, none, some, arith,
  inl, inr, Bool-cases,
}
use action_learning_p2p_vers.Prelude.Text.{Text, text_eq, text_eq_iff}
use action_learning_p2p_vers.Disk.Paths.{parent_path, prefixes}
use action_learning_p2p_vers.Disk.Nodes.{Node, file, dir, lookup-insert}
use action_learning_p2p_vers.Disk.Io.{Disk, node_at, Result, ok, threw}
use action_learning_p2p_vers.Disk.Ops
use action_learning_p2p_vers.Disk.Frame.{
  file_at, fault_rule, file_at-put_ne, file_at-put_self, file_at-unlink_ne, file_at-unlink_self,
}

abbrev pub Same : Disk → Disk → Type 0
Same d d' = (q : Text) → file_at q d' ≡ file_at q d

abbrev pub SameBut : Text → Disk → Disk → Type 0
SameBut p d d' = (q : Text) → q ≢ p → file_at q d' ≡ file_at q d

-- `create_directories` touches no regular file, whether it succeeds or not.
make_node-Same :
    (p : Text) (o : Option Node) (d : Disk) → node_at p d ≡ o → Same d (Ops.make_node p o d).1
unfolding Ops.make_node
make_node-Same p none d e q = ground (arith, text_eq_iff q p, lookup-insert q p dir d.nodes)
make_node-Same p (some (file c m)) d e q = refl
make_node-Same p (some dir) d e q = refl

make_directory-Same : (p : Text) (d : Disk) → Same d (Ops.make_directory p d).1
unfolding Ops.make_directory
make_directory-Same p d q = ground (arith, make_node-Same p (node_at p d) d refl q)

make_all-Same : (ps : List Text) (d : Disk) → Same d (Ops.make_all ps d).1
unfolding Ops.make_all
make_all-Same [] d q = refl
make_all-Same (p ∷ ps) d q =
    ground (arith, make_directory-Same p d q, make_all-Same ps (Ops.make_directory p d).1 q)

pub create_directories-Same : (p : Text) (d : Disk) → Same d (Ops.create_directories p d).1
unfolding Ops.create_directories
create_directories-Same p d q =
    fault_rule (λ r. file_at q r.1 ≡ file_at q d) _ _ d (λ gs. refl)
      (λ gs. ground (arith, make_all-Same (prefixes [] p) (record d { faults = gs }) q))

-- `remove` takes the file away, or throws and changes nothing.
abbrev pub Removed : Text → Disk → Result Bool × Disk → Type 0
Removed p d (threw, d') = Same d d'
Removed p d (ok b, d') = (file_at p d' ≡ none) × SameBut p d d'

remove_node-Removed :
    (p : Text) (o : Option Node) (d : Disk) → node_at p d ≡ o → Removed p d (Ops.remove_node p o d)
unfolding Ops.remove_node
remove_node-Removed p none d e = elim (Bool-cases (Ops.is_blocked p d.nodes)) [
  | inl t ↦ rw t (λ q. refl)
  | inr t ↦ rw t (rw e, λ q h. refl)
]
remove_node-Removed p (some (file c m)) d e =
    (file_at-unlink_self p p d refl, λ q h. file_at-unlink_ne q p d h)
remove_node-Removed p (some dir) d e = elim (Bool-cases (Ops.has_children p d.nodes)) [
  | inl t ↦ rw t (λ q. refl)
  | inr t ↦ rw t (file_at-unlink_self p p d refl, λ q h. file_at-unlink_ne q p d h)
]

pub remove-Removed : (p : Text) (d : Disk) → Removed p d (Ops.remove p d)
unfolding Ops.remove
remove-Removed p d =
    fault_rule (Removed p d) _ _ d (λ gs q. refl)
      (λ gs. remove_node-Removed p (node_at p d) (record d { faults = gs }) refl)

-- `rename` moves the file onto `b`, or throws and changes nothing.
abbrev pub Renamed : Text → Text → Disk → Result (Unit {0}) × Disk → Type 0
Renamed a b d (threw, d') = Same d d'
Renamed a b d (ok _, d') =
    (file_at b d' ≡ file_at a d)
    × (file_at a d ≢ none)
    × (file_at a d' ≡ none)
    × ((q : Text) → q ≢ a → q ≢ b → file_at q d' ≡ file_at q d)

moved :
    (a b c : Text) (m : ℕ) (d : Disk)
    → a ≢ b
    → node_at a d ≡ some (file c m)
    → Renamed a b d (ok tt, Ops.put b (file c m) (Ops.unlink a d))
moved a b c m d h e = (
  file_at-put_self b b (Ops.unlink a d) (file c m) refl ∙ rw e,
  rw e (λ p. cc),
  file_at-put_ne a b (Ops.unlink a d) (file c m) h ∙ file_at-unlink_self a a d refl,
  λ q ha hb. file_at-put_ne q b (Ops.unlink a d) (file c m) hb ∙ file_at-unlink_ne q a d ha,
)

rename_node-Renamed :
    (a b : Text) (o : Option Node) (d : Disk)
    → a ≢ b
    → node_at a d ≡ o
    → Renamed a b d (Ops.rename_node a b o d)
unfolding Ops.rename_node
rename_node-Renamed a b none d h e = λ q. refl
rename_node-Renamed a b (some dir) d h e = λ q. refl
rename_node-Renamed a b (some (file c m)) d h e =
    elim (Bool-cases (Ops.is_dir_at (parent_path b) d && Ops.lands (node_at b d))) [
      | inl t ↦ elim (Bool-cases (text_eq a b)) [
        | inl same ↦ absurd (h ((text_eq_iff a b).0 same))
        | inr other ↦ rw (t, other) (moved a b c m d h e)
      ]
      | inr t ↦ rw t (λ q. refl)
    ]

pub rename-Renamed : (a b : Text) (d : Disk) → a ≢ b → Renamed a b d (Ops.rename a b d)
unfolding Ops.rename
rename-Renamed a b d h =
    fault_rule (Renamed a b d) _ _ d (λ gs q. refl)
      (λ gs. rename_node-Renamed a b (node_at a d) (record d { faults = gs }) h refl)

-- `exists` changes nothing, and where it is false there is no file.
abbrev pub Seen : Text → Disk → Result Bool × Disk → Type 0
Seen p d (ok true, d') = Same d d'
Seen p d (ok false, d') = (file_at p d ≡ none) × Same d d'
Seen p d (threw, d') = Same d d'

Seen-here :
    (p : Text) (d d' : Disk)
    → d'.nodes ≡ d.nodes
    → Seen p d (ok (Ops.is_slash p || Ops.is_some (node_at p d')), d')
Seen-here p d d' e = elim (Bool-cases (Ops.is_slash p || Ops.is_some (node_at p d'))) [
  | inl t ↦ rw t (λ q. ground arith)
  | inr t ↦ rw t (ground arith, λ q. ground arith)
]

pub exists-Seen : (p : Text) (d : Disk) → Seen p d (Ops.exists p d)
unfolding Ops.exists
exists-Seen p d =
    fault_rule (Seen p d) _ _ d (λ gs q. refl) (λ gs. Seen-here p d (record d { faults = gs }) refl)
