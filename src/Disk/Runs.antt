-- ===== src/Disk/Runs.antt =====
-- The calls on files that are there, while none fails, as equations of states.
use action_learning_p2p_vers.Prelude.{ℕ, ◌≡◌, refl, ap, ◌∙◌, true, false, [], ◌++◌, none, some}
use action_learning_p2p_vers.Prelude.Text.{Text, text_eq, text_eq_refl}
use action_learning_p2p_vers.Disk.Paths.{parent_path}
use action_learning_p2p_vers.Disk.Nodes.{Node, file, lookup-insert, insert-insert, erase-insert}
use action_learning_p2p_vers.Disk.Io.{Disk, node_at, ok}
use action_learning_p2p_vers.Disk.Ops

pub node_at-put : (p : Text) (n : Node) (d : Disk) → node_at p (Ops.put p n d) ≡ some n
node_at-put p n d = lookup-insert p p n d.nodes ∙ (rw (text_eq_refl p) refl)

pub put-put : (p : Text) (m n : Node) (d : Disk) → Ops.put p n (Ops.put p m d) ≡ Ops.put p n d
put-put p m n d = ap (λ ns. record d { nodes = ns }) (insert-insert p m n d.nodes)

pub unlink-put :
    (p : Text) (n : Node) (d : Disk) → node_at p d ≡ none → Ops.unlink p (Ops.put p n d) ≡ d
unlink-put p n d h = ap (λ ns. record d { nodes = ns }) (erase-insert p n d.nodes h)

module _ (p : Text) (d : Disk) (calm : d.faults ≡ []) where
  pub open_truncate_new :
      Ops.is_dir_at (parent_path p) d ≡ true
      → node_at p d ≡ none
      → Ops.open_truncate p d ≡ (ok true, Ops.put p (file [] Ops.default_mode) d)
  unfolding Ops.open_truncate Ops.open_node
  open_truncate_new in_dir absent = rw (calm, in_dir, absent) refl

  pub open_update_new : node_at p d ≡ none → Ops.open_update p d ≡ (ok false, d)
  unfolding Ops.open_update Ops.open_existing
  open_update_new absent = rw (calm, absent) refl

  module _ (c : Text) (m : ℕ) (there : node_at p d ≡ some (file c m)) where
    pub open_update_file : Ops.open_update p d ≡ (ok true, d)
    unfolding Ops.open_update Ops.open_existing
    open_update_file = rw (calm, there) refl

    pub append_file :
        (bytes : Text) → Ops.append p bytes d ≡ (ok true, Ops.put p (file (c ++ bytes) m) d)
    unfolding Ops.append Ops.append_node
    append_file bytes = rw (calm, there) refl

    pub write_at_file :
        (off : ℕ) (bytes : Text)
        → Ops.write_at p off bytes d ≡ (ok true, Ops.put p (file (Ops.overwrite c off bytes) m) d)
    unfolding Ops.write_at Ops.write_node
    write_at_file off bytes = rw (calm, there) refl

    pub read_file_file : Ops.read_file p d ≡ (ok (some c), d)
    unfolding Ops.read_file Ops.content_of
    read_file_file = rw (calm, there) refl

    pub remove_file : Ops.remove p d ≡ (ok true, Ops.unlink p d)
    unfolding Ops.remove Ops.remove_node
    remove_file = rw (calm, there) refl

    pub exists_file : Ops.is_slash p ≡ false → Ops.exists p d ≡ (ok true, d)
    unfolding Ops.exists
    exists_file other = rw (calm, other, there) refl

    pub rename_file :
        (b : Text)
        → Ops.is_dir_at (parent_path b) d ≡ true
        → Ops.lands (node_at b d) ≡ true
        → text_eq p b ≡ false
        → Ops.rename p b d ≡ (ok tt, Ops.put b (file c m) (Ops.unlink p d))
    unfolding Ops.rename Ops.rename_node
    rename_file b in_dir free apart = rw (calm, there, in_dir, free, apart) refl
