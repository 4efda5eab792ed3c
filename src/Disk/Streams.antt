-- ===== src/Disk/Streams.antt =====
-- What the file streams do to the regular files: opening, writing and reading.
use action_learning_p2p_vers.Prelude.{
  ℕ, ◌%◌, ◌≡◌, ◌⊎◌, refl, ◌∙◌, Bool, true, false, [], ◌++◌, Option, none, some, arith, inl, inr,
  Bool-cases,
}
use action_learning_p2p_vers.Prelude.Text.{Text}
use action_learning_p2p_vers.Disk.Paths.{parent_path}
use action_learning_p2p_vers.Disk.Nodes.{Node, file, dir}
use action_learning_p2p_vers.Disk.Io.{Disk, node_at, Result, ok, threw}
use action_learning_p2p_vers.Disk.Ops
use action_learning_p2p_vers.Disk.Frame.{file_at, fault_rule, file_at-put_ne, file_at-put_self}
use action_learning_p2p_vers.Disk.Effects.{Same, SameBut}

-- A stream opened for writing stands on an empty file; one that fails has changed nothing.
abbrev pub Opened : Text → Disk → Result Bool × Disk → Type 0
Opened p d (ok true, d') = ((m : ℕ) × (file_at p d' ≡ some ([], m))) × SameBut p d d'
Opened p d (ok false, d') = Same d d'
Opened p d (threw, d') = ⊥

open_node-Opened : (p : Text) (o : Option Node) (d : Disk) → Opened p d (Ops.open_node p o d)
unfolding Ops.open_node
open_node-Opened p none d = (
  (Ops.default_mode, file_at-put_self p p d (file [] Ops.default_mode) refl),
  λ q h. file_at-put_ne q p d (file [] Ops.default_mode) h,
)
open_node-Opened p (some (file c m)) d =
    ((m, file_at-put_self p p d (file [] m) refl), λ q h. file_at-put_ne q p d (file [] m) h)
open_node-Opened p (some dir) d = λ q. refl

pub open_truncate-Opened : (p : Text) (d : Disk) → Opened p d (Ops.open_truncate p d)
unfolding Ops.open_truncate
open_truncate-Opened p d =
    fault_rule (Opened p d) _ _ d (λ gs q. refl)
      λ gs. elim (Bool-cases (Ops.is_dir_at (parent_path p) d)) [
        | inl t ↦ rw t (open_node-Opened p (node_at p d) (record d { faults = gs }))
        | inr t ↦ rw t (λ q. refl)
      ]

-- A write on the open stream changes the content by `f`, or fails and changes nothing.
abbrev pub Wrote : Text → (Text → Text) → Disk → Result Bool × Disk → Type 0
Wrote p f d (ok true, d') =
    ((c : Text) × (m : ℕ) × (file_at p d ≡ some (c, m)) × (file_at p d' ≡ some (f c, m)))
    × SameBut p d d'
Wrote p f d (ok false, d') = Same d d'
Wrote p f d (threw, d') = ⊥

Wrote-file :
    (p : Text) (f : Text → Text) (c : Text) (m : ℕ) (d : Disk)
    → node_at p d ≡ some (file c m)
    → Wrote p f d (ok true, Ops.put p (file (f c) m) d)
Wrote-file p f c m d e = (
  (c, m, rw e, file_at-put_self p p d (file (f c) m) refl),
  λ q h. file_at-put_ne q p d (file (f c) m) h,
)

append_node-Wrote :
    (p bytes : Text) (o : Option Node) (d : Disk)
    → node_at p d ≡ o
    → Wrote p (λ c. c ++ bytes) d (Ops.append_node p bytes o d)
unfolding Ops.append_node
append_node-Wrote p bytes none d e = λ q. refl
append_node-Wrote p bytes (some (file c m)) d e = Wrote-file p (λ x. x ++ bytes) c m d e
append_node-Wrote p bytes (some dir) d e = λ q. refl

pub append-Wrote : (p bytes : Text) (d : Disk) → Wrote p (λ c. c ++ bytes) d (Ops.append p bytes d)
unfolding Ops.append
append-Wrote p bytes d =
    fault_rule (Wrote p (λ c. c ++ bytes) d) _ _ d (λ gs q. refl)
      (λ gs. append_node-Wrote p bytes (node_at p d) (record d { faults = gs }) refl)

write_node-Wrote :
    (p : Text) (off : ℕ) (bytes : Text) (o : Option Node) (d : Disk)
    → node_at p d ≡ o
    → Wrote p (λ c. Ops.overwrite c off bytes) d (Ops.write_node p off bytes o d)
unfolding Ops.write_node
write_node-Wrote p off bytes none d e = λ q. refl
write_node-Wrote p off bytes (some (file c m)) d e =
    Wrote-file p (λ x. Ops.overwrite x off bytes) c m d e
write_node-Wrote p off bytes (some dir) d e = λ q. refl

pub write_at-Wrote :
    (p : Text) (off : ℕ) (bytes : Text) (d : Disk)
    → Wrote p (λ c. Ops.overwrite c off bytes) d (Ops.write_at p off bytes d)
unfolding Ops.write_at
write_at-Wrote p off bytes d =
    fault_rule (Wrote p (λ c. Ops.overwrite c off bytes) d) _ _ d (λ gs q. refl)
      (λ gs. write_node-Wrote p off bytes (node_at p d) (record d { faults = gs }) refl)

-- Reading changes nothing, and what it reads is the content of a file, or nothing where there is none.
abbrev pub Read : Text → Disk → Result (Option Text) × Disk → Type 0
Read p d (ok none, d') = Same d d'
Read p d (ok (some c), d') =
    (((m : ℕ) × (file_at p d ≡ some (c, m))) ⊎ ((c ≡ []) × (file_at p d ≡ none))) × Same d d'
Read p d (threw, d') = ⊥

content_of-Read :
    (p : Text) (o : Option Node) (d e : Disk)
    → node_at p d ≡ o
    → Same d e
    → Read p d (ok (Ops.content_of o), e)
unfolding Ops.content_of
content_of-Read p none d e h s = s
content_of-Read p (some (file c m)) d e h s = (inl (m, rw h), s)
content_of-Read p (some dir) d e h s = (inr (refl, rw h refl), s)

pub read_file-Read : (p : Text) (d : Disk) → Read p d (Ops.read_file p d)
unfolding Ops.read_file
read_file-Read p d =
    fault_rule (Read p d) _ _ d (λ gs q. refl)
      (λ gs. content_of-Read p (node_at p d) d (record d { faults = gs }) refl (λ q. refl))

-- A change of mode keeps the content.
abbrev pub Chmodded : Text → Disk → Result (Unit {0}) × Disk → Type 0
Chmodded p d (r, d') =
    ((c : Text) (m : ℕ) → file_at p d ≡ some (c, m) → (k : ℕ) × (file_at p d' ≡ some (c, k)))
    × SameBut p d d'

chmod_node-Chmodded :
    (p : Text) (mode : ℕ) (o : Option Node) (d : Disk)
    → node_at p d ≡ o
    → Chmodded p d (Ops.chmod_node p mode o d)
unfolding Ops.chmod_node
chmod_node-Chmodded p mode none d e = (λ c m h. (m, h), λ q h. refl)
chmod_node-Chmodded p mode (some (file c m)) d e = (
  λ x k h. (mode % 4096, file_at-put_self p p d (file c (mode % 4096)) refl ∙ (ground arith)),
  λ q h. file_at-put_ne q p d (file c (mode % 4096)) h,
)
chmod_node-Chmodded p mode (some dir) d e = (λ c m h. (m, h), λ q h. refl)

pub permissions-Chmodded :
    (p : Text) (mode : ℕ) (d : Disk) → Chmodded p d (Ops.permissions p mode d)
unfolding Ops.permissions
permissions-Chmodded p mode d =
    fault_rule (Chmodded p d) _ _ d (λ gs. (λ c m h. (m, h), λ q h. refl))
      (λ gs. chmod_node-Chmodded p mode (node_at p d) (record d { faults = gs }) refl)
