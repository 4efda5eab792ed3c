-- ===== src/Transfer/ChunkSequence.antt =====
-- A file that comes in chunks, in order, by `handle_chunked_file_download`.
use action_learning_p2p_vers.Prelude.{
  ℕ, ◌≡◌, ◌⊎◌, refl, sym, ap, ◌∙◌, true, false, List, [], ◌∷◌, ◌++◌, none, some, arith, length,
  length-append, map, All, append_assoc,
}
use action_learning_p2p_vers.Prelude.Text.{Text, text_eq, text_eq_iff, is_empty, codes}
use action_learning_p2p_vers.Disk.Paths.{
  parent_path, parent_path-append, before_last_slash, path_join, prefixes,
}
use action_learning_p2p_vers.Disk.Nodes
use action_learning_p2p_vers.Disk.Nodes.{file, lookup-insert}
use action_learning_p2p_vers.Disk.Io.{Disk, node_at, ok}
use action_learning_p2p_vers.Disk.Ops
use action_learning_p2p_vers.Disk.Directories.{
  DirsAt, create_directories_present, DirsAt-put, last_prefix,
}
use action_learning_p2p_vers.Disk.Runs.{
  node_at-put, unlink-put, rename_file, open_update_file, open_update_new, open_truncate_new,
}
use action_learning_p2p_vers.Crypto.Evp.{Evp}
use action_learning_p2p_vers.Crypto.Sha.{hash_content}
use action_learning_p2p_vers.Transfer.Download.{tmp_of}
use action_learning_p2p_vers.Transfer.Chunked.{
  chunk_stored, file_complete, chk_of, open_chunk, after_chunk, install_file,
}
use action_learning_p2p_vers.Transfer.Atomic.{tmp_of-ne}
use action_learning_p2p_vers.Transfer.Arrival.{check_hash_passes}
use action_learning_p2p_vers.Transfer.ChunkOrder.{
  Chunk, contents, chk_of-apart, receive_file, Ready, chunk_appended,
}

module _ (e : Evp) (watch rel expected_hash : Text) where
  abbrev dest : Text
  dest = path_join watch rel

  abbrev tmp : Text
  tmp = tmp_of dest

  abbrev Found : Disk → Disk → Text → ℕ → Type 0
  Found = Ready e watch rel expected_hash

  module _ (d : Disk) (calm : d.faults ≡ []) (named : is_empty (parent_path dest) ≡ false)
      (dirs : DirsAt (prefixes [] (parent_path dest)) d) (fresh : node_at tmp d ≡ none)
      (absent : node_at (chk_of dest) d ≡ none) (free : Ops.lands (node_at dest d) ≡ true) where
    abbrev holding : Text → ℕ → Disk
    holding c m = Ops.put tmp (file c m) d

    dirs_still : (c : Text) (m : ℕ) → DirsAt (prefixes [] (parent_path dest)) (holding c m)
    dirs_still c m =
        DirsAt-put (prefixes [] (parent_path dest)) tmp c m d (ap Ops.is_dir_node fresh) dirs

    -- The first chunk finds no temporary file, and makes it.
    opens_new : open_chunk tmp d ≡ (ok true, holding [] Ops.default_mode)
    unfolding open_chunk before_last_slash
    opens_new =
        let in_dir : Ops.is_dir_at (parent_path tmp) d ≡ true =
          ap (λ p. Ops.is_dir_at p d) (parent_path-append dest (codes ".tmp") refl)
          ∙ last_prefix [] (parent_path dest) d dirs in
        rw (open_update_new tmp d calm fresh, open_truncate_new tmp d calm in_dir fresh) refl

    Ready-first : Found d d [] Ops.default_mode
    Ready-first = record {
      calm = calm;
      dirs = create_directories_present (parent_path dest) d calm named dirs;
      in_dir = last_prefix [] (parent_path dest) d dirs;
      absent = absent;
      opens = opens_new;
    }

    -- The next chunk finds what the chunks before it have left.
    Ready-next : (c : Text) (m : ℕ) → Found d (holding c m) c m
    unfolding open_chunk
    Ready-next c m = record {
      calm = calm;
      dirs =
          create_directories_present (parent_path dest) (holding c m) calm named (dirs_still c m);
      in_dir = last_prefix [] (parent_path dest) (holding c m) (dirs_still c m);
      absent = rw (lookup-insert (chk_of dest) tmp (file c m) d.nodes, chk_of-apart dest) absent;
      opens = rw (open_update_file tmp (holding c m) calm c m (node_at-put tmp (file c m) d)) refl;
    }

    free_still : (c : Text) (m : ℕ) → Ops.lands (node_at dest (holding c m)) ≡ true
    free_still c m = ground (
      arith,
      free,
      text_eq_iff dest tmp,
      tmp_of-ne dest,
      lookup-insert dest tmp (file c m) d.nodes,
    )

    apart : text_eq tmp dest ≡ false
    apart = ground (arith, text_eq_iff tmp dest, tmp_of-ne dest)

    installed :
        (c : Text) (m : ℕ)
        → (is_empty expected_hash ≡ true) ⊎ (hash_content e (some c) ≡ some expected_hash)
        → after_chunk e tmp dest true expected_hash true (holding c m)
          ≡ (ok file_complete, Ops.put dest (file c m) d)
    unfolding after_chunk install_file
    installed c m why =
        let there = node_at-put tmp (file c m) d in
        rw
          (
            check_hash_passes e tmp expected_hash (holding c m) calm c m there why,
            rename_file tmp (holding c m) calm c m there dest
                (last_prefix [] (parent_path dest) (holding c m) (dirs_still c m)) (free_still c m)
                apart,
          )
          (ap (λ x. (ok file_complete, Ops.put dest (file c m) x))
            (unlink-put tmp (file c m) d fresh))

    receives :
        (s : Disk) (c : Text) (m : ℕ)
        → Found d s c m
        → (chunks : List Chunk) (k : Chunk) → All (λ x. hash_content e (some x.0) ≡ some x.1) chunks
        → hash_content e (some k.0) ≡ some k.1
        → (whole : Text) → c ++ (contents chunks ++ k.0) ≡ whole
        → (is_empty expected_hash ≡ true) ⊎ (hash_content e (some whole) ≡ some expected_hash)
        → receive_file e watch rel expected_hash (length c) chunks k s ≡ (
          ok (map (λ _. chunk_stored) chunks ++ file_complete ∷ []),
          Ops.put dest (file whole m) d,
        )
    unfolding receive_file contents after_chunk Nodes.insert
    receives s c m r [] k sound digest whole split why =
        rw
          (
            chunk_appended e watch rel expected_hash d calm s c m r k digest true,
            split,
            installed whole m why,
          )
          refl
    receives s c m r (x ∷ xs) k sound digest whole split why =
        rw
          (
            chunk_appended e watch rel expected_hash d calm s c m r x sound.0 false,
            sym (length-append c x.0),
            receives (holding (c ++ x.0) m) (c ++ x.0) m (Ready-next (c ++ x.0) m) xs k sound.1
                digest whole
                (append_assoc c x.0 _ ∙ ap (◌++◌ c) (sym (append_assoc x.0 _ _)) ∙ split) why,
          )
          refl

    -- Where no call fails, the directories of the destination are there, its temporary files are
    -- not and nothing but a file is in the way, the chunks of a file that come in order, each
    -- with its digest, are each stored, the last completes the file, if the whole has the digest
    -- that is expected, if one is, and the disk is as it was but for the destination, which holds
    -- the chunks one behind the other.
    pub receive_file_installs :
        (chunks : List Chunk) (k : Chunk)
        → All (λ x. hash_content e (some x.0) ≡ some x.1) chunks
        → hash_content e (some k.0) ≡ some k.1
        → (is_empty expected_hash ≡ true)
          ⊎ (hash_content e (some (contents chunks ++ k.0)) ≡ some expected_hash)
        → receive_file e watch rel expected_hash 0 chunks k d ≡ (
          ok (map (λ _. chunk_stored) chunks ++ file_complete ∷ []),
          Ops.put dest (file (contents chunks ++ k.0) Ops.default_mode) d,
        )
    receive_file_installs chunks k sound digest why =
        receives d [] Ops.default_mode Ready-first chunks k sound digest _ refl why
