-- ===== src/Disk/Io.antt =====
-- C++ statements over the file system: they may throw, and the file system changes either way.
use action_learning_p2p_vers.Prelude.{Bool, false, List, [], ◌∷◌, Option}
use action_learning_p2p_vers.Prelude.Text.{Text}
use action_learning_p2p_vers.Disk.Nodes.{Nodes, Node, lookup}

-- `faults` says of each of the coming calls to the operating system whether it fails, for a reason
-- that the map does not show (permissions, a full disk, a race). When it is used up, none fails.
pub record Disk : Type 0 where
  pub nodes : Nodes
  pub faults : List Bool

abbrev pub node_at : Text → Disk → Option Node
node_at p d = lookup p d.nodes

pub data Result {ℓ} (A : Type ℓ) : Type ℓ where
  ok : A → Result A
  threw : Result A

abbrev pub Io : Type 0 → Type 0
Io A = Disk → Result A × Disk

abbrev pub pure : {A : Type 0} → A → Io A
pure a d = (ok a, d)

abbrev pub throw : {A : Type 0} → Io A
throw d = (threw, d)

abbrev pub after : {A B : Type 0} → Result A × Disk → (A → Io B) → Result B × Disk
after (ok a, d) f = f a d
after (threw, d) f = (threw, d)

infixl 5 ◌>>=◌ ◌>>◌
abbrev pub ◌>>=◌ : {A B : Type 0} → Io A → (A → Io B) → Io B
◌>>=◌ m f d = after (m d) f

abbrev pub ◌>>◌ : {B : Type 0} → Io (Unit {0}) → Io B → Io B
m >> k = m >>= λ _. k

abbrev pub recover : {A : Type 0} → Result A × Disk → Io A → Result A × Disk
recover (ok a, d) h = (ok a, d)
recover (threw, d) h = h d

-- `try { body } catch (const std::exception&) { handler }`
abbrev pub try_catch : {A : Type 0} → Io A → Io A → Io A
try_catch body handler d = recover (body d) handler

-- Whether the next call of the operating system fails.
abbrev pub next_fault : Io Bool
next_fault d = elim d.faults [ [] ↦ (ok false, d) | b ∷ bs ↦ (ok b, record d { faults = bs }) ]
