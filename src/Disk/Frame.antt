-- ===== src/Disk/Frame.antt =====
-- What each call leaves alone: the regular files at other paths.
use action_learning_p2p_vers.Prelude.{
  ℕ, ◌%◌, ◌≡◌, refl, ◌≢◌, Bool, true, false, List, [], ◌∷◌, ◌++◌, Option, none, some, arith,
  if◌then◌else◌,
}
use action_learning_p2p_vers.Prelude.Text.{Text, text_eq_iff}
use action_learning_p2p_vers.Disk.Nodes.{Node, file, dir, lookup-insert, lookup-erase}
use action_learning_p2p_vers.Disk.Io.{Disk, node_at, Result, Io, next_fault, ◌>>=◌}
use action_learning_p2p_vers.Disk.Ops

-- The content and the mode of the regular file at a path; directories do not show.
abbrev pub file_of : Option Node → Option (Text × ℕ)
file_of none = none
file_of (some (file c m)) = some (c, m)
file_of (some dir) = none

abbrev pub file_at : Text → Disk → Option (Text × ℕ)
file_at q d = file_of (node_at q d)

-- A call that may be failed does `bad` or `good`; either way only the schedule has moved on.
pub fault_rule {ℓ} :
    {A : Type 0} (P : Result A × Disk → Type ℓ) (bad good : Io A) (d : Disk)
    → ((gs : List Bool) → P (bad (record d { faults = gs })))
    → ((gs : List Bool) → P (good (record d { faults = gs })))
    → P ((next_fault >>= λ b. if b then bad else good) d)
fault_rule {A} P bad good d hbad hgood = go d.faults
  where
    go :
        (fs : List Bool)
        → P ((next_fault >>= λ b. if b then bad else good) (record d { faults = fs }))
    go [] = hgood []
    go (true ∷ fs) = hbad fs
    go (false ∷ fs) = hgood fs

module _ (q p : Text) (d : Disk) where
  pub file_at-put_ne : (n : Node) → q ≢ p → file_at q (Ops.put p n d) ≡ file_at q d
  file_at-put_ne n h = ground (arith, text_eq_iff q p, lookup-insert q p n d.nodes)

  pub file_at-put_self : (n : Node) → q ≡ p → file_at q (Ops.put p n d) ≡ file_of (some n)
  file_at-put_self n h = ground (arith, text_eq_iff q p, lookup-insert q p n d.nodes)

  pub file_at-unlink_ne : q ≢ p → file_at q (Ops.unlink p d) ≡ file_at q d
  file_at-unlink_ne h = ground (arith, text_eq_iff q p, lookup-erase q p d.nodes)

  pub file_at-unlink_self : q ≡ p → file_at q (Ops.unlink p d) ≡ none
  file_at-unlink_self h = ground (arith, text_eq_iff q p, lookup-erase q p d.nodes)

  pub file_at-is_directory : file_at q (Ops.is_directory p d).1 ≡ file_at q d
  unfolding Ops.is_directory
  file_at-is_directory = ground arith

  pub file_at-exists : file_at q (Ops.exists p d).1 ≡ file_at q d
  unfolding Ops.exists
  file_at-exists = ground arith

  pub file_at-read_file : file_at q (Ops.read_file p d).1 ≡ file_at q d
  unfolding Ops.read_file
  file_at-read_file = ground arith

  pub file_at-remove_ne : q ≢ p → file_at q (Ops.remove p d).1 ≡ file_at q d
  unfolding Ops.remove
  file_at-remove_ne h = ground (arith, text_eq_iff q p, lookup-erase q p d.nodes)

  pub file_at-permissions_ne :
      (mode : ℕ) → q ≢ p → file_at q (Ops.permissions p mode d).1 ≡ file_at q d
  unfolding Ops.permissions
  file_at-permissions_ne mode h =
      fault_rule (λ r. file_at q r.1 ≡ file_at q d) _ _ d (λ gs. refl) (λ gs. go (node_at p d) gs)
    where
      go :
          (o : Option Node) (gs : List Bool)
          → file_at q (Ops.chmod_node p mode o (record d { faults = gs })).1 ≡ file_at q d
      go none gs = refl
      go (some (file c m)) gs = file_at-put_ne (file c (mode % 4096)) h
      go (some dir) gs = refl

  pub file_at-open_truncate_ne : q ≢ p → file_at q (Ops.open_truncate p d).1 ≡ file_at q d
  unfolding Ops.open_truncate
  file_at-open_truncate_ne h =
      fault_rule (λ r. file_at q r.1 ≡ file_at q d) _ _ d (λ gs. refl)
        (λ gs. ground (arith, go (node_at p d) gs))
    where
      go :
          (o : Option Node) (gs : List Bool)
          → file_at q (Ops.open_node p o (record d { faults = gs })).1 ≡ file_at q d
      go none gs = file_at-put_ne (file [] Ops.default_mode) h
      go (some (file c m)) gs = file_at-put_ne (file [] m) h
      go (some dir) gs = refl

  pub file_at-append_ne : (b : Text) → q ≢ p → file_at q (Ops.append p b d).1 ≡ file_at q d
  unfolding Ops.append
  file_at-append_ne b h =
      fault_rule (λ r. file_at q r.1 ≡ file_at q d) _ _ d (λ gs. refl) (λ gs. go (node_at p d) gs)
    where
      go :
          (o : Option Node) (gs : List Bool)
          → file_at q (Ops.append_node p b o (record d { faults = gs })).1 ≡ file_at q d
      go none gs = refl
      go (some (file c m)) gs = file_at-put_ne (file (c ++ b) m) h
      go (some dir) gs = refl
