-- ===== src/Watch/InotifyTree.antt =====
-- The table of watch descriptors against the tree of directories.
use action_learning_p2p_vers.Prelude.{
  ℕ, zero, suc, ◌<◌, ◌≡◌, refl, sym, subst, ◌∙◌, Bool, true, false, List, [], ◌∷◌, ◌++◌, some,
  arith, inl, inr, Bool-cases, if◌then◌else◌,
}
use action_learning_p2p_vers.Prelude.Int.{ℤ, pos, is_negative}
use action_learning_p2p_vers.Prelude.Text.{Text}
use action_learning_p2p_vers.Sockets.{int_eq, int_eq→eq}
use action_learning_p2p_vers.Watch.Inotify.{
  DirEntry, Inotify, Table, find, set, strip, relative_dir, Watched, add_entries, after_add,
  add_watch_recursive,
}

-- A directory that is some levels below another.
pub data Holds (p : Text) : List DirEntry → Type 0 where
  first :
      {e : DirEntry} {es : List DirEntry} → e.path ≡ p → e.is_directory ≡ true → Holds p (e ∷ es)
  later : {e : DirEntry} {es : List DirEntry} → Holds p es → Holds p (e ∷ es)

pub data IsBelow (tree : Text → List DirEntry) : ℕ → Text → Text → Type 0 where
  here : {n : ℕ} {p : Text} → IsBelow tree n p p
  down : {n : ℕ} {p q r : Text} → Holds q (tree p) → IsBelow tree n q r → IsBelow tree (suc n) p r

abbrev pub InTree : (Text → List DirEntry) → Text → Text → Type 0
InTree tree root p = (n : ℕ) × IsBelow tree n root p

-- A tree of directories that stays as it is, in which every directory can be watched, and `dir` has a
-- descriptor that no other directory of the tree has.
pub record IsStill (sys : Inotify) (root dir : Text) : Type 0 where
  pub tree : Text → List DirEntry
  pub wd_of : Text → ℤ
  pub wd_nonnegative : (p : Text) → InTree tree root p → is_negative (wd_of p) ≡ false
  pub wd_own : (p : Text) → InTree tree root p → wd_of dir ≡ wd_of p → dir ≡ p
  pub entries_tree : (p : Text) (w : sys.World) → InTree tree root p → (sys.entries p w).0 ≡ tree p
  pub add_watch-wd :
      (fd : ℤ) (p : Text) (w : sys.World) → InTree tree root p → (sys.add_watch fd p w).0 ≡ wd_of p

below_again :
    {tree : Text → List DirEntry} {n : ℕ} {p q r : Text}
    → IsBelow tree n p q
    → Holds r (tree q)
    → IsBelow tree (suc n) p r
below_again (here {n}) held = down held (here {n = n})
below_again (down held' h) held = down held' (below_again h held)

int_eq_refl : (a : ℤ) → int_eq a a ≡ true
int_eq_refl (pos a) = ground arith
int_eq_refl (ℤ.negsuc a) = ground arith

find-set :
    (k j : ℤ) (p : Text) (t : Table)
    → find k (set j p t) ≡ (if int_eq k j then some p else find k t)
unfolding find set
find-set k j p [] = refl
find-set k j p ((i, q) ∷ t) =
    ground (arith, int_eq→eq k j, int_eq→eq j i, int_eq→eq k i, int_eq_refl k, find-set k j p t)

pub strip-append : (p rest : Text) → strip p (p ++ rest) ≡ some rest
unfolding strip
strip-append [] rest = refl
strip-append (c ∷ cs) rest = ground (arith, strip-append cs rest)

module _ (sys : Inotify) (root dir : Text) (still : IsStill sys root dir) (fd : ℤ)
    (watch_path : Text) where
  open still use {tree, wd_of, wd_nonnegative, wd_own, entries_tree, add_watch-wd}

  abbrev In : Text → Type 0
  In = InTree tree root

  -- The table has the path of the directory under its descriptor.
  abbrev pub Knows : Watched sys → Type 0
  Knows (table, w) = find (wd_of dir) table ≡ some (relative_dir watch_path dir)

  set-Knows :
      (p : Text) (table : Table)
      → In p
      → find (wd_of dir) table ≡ some (relative_dir watch_path dir)
      → find (wd_of dir) (set (wd_of p) (relative_dir watch_path p) table)
        ≡ some (relative_dir watch_path dir)
  set-Knows p table inside h =
      find-set (wd_of dir) (wd_of p) _ table ∙ elim (Bool-cases (int_eq (wd_of dir) (wd_of p))) [
        | inl t ↦ rw (t, sym (wd_own p inside (int_eq→eq _ _ t))) refl
        | inr f ↦ rw f h
      ]

  if_kept :
      (x y : Watched sys) (b : Bool) → (b ≡ true → Knows x) → Knows y → Knows (if b then x else y)
  if_kept x y true hx hy = hx refl
  if_kept x y false hx hy = hy

  -- What a directory of the tree holds is in the tree.
  entries-In : (p q : Text) (w : sys.World) → In p → Holds q (sys.entries p w).0 → In q
  entries-In p q w (n, below) held =
      (suc n, below_again below (subst (Holds q) (entries_tree p w (n, below)) held))

  module _ (more : Text → Watched sys → Watched sys)
      (keep : (p : Text) (s : Watched sys) → In p → Knows s → Knows (more p s)) where
    add_entries-Knows :
        (es : List DirEntry) (s : Watched sys)
        → ((q : Text) → Holds q es → In q)
        → Knows s
        → Knows (add_entries sys more es s)
    unfolding add_entries
    add_entries-Knows [] s inside h = h
    add_entries-Knows (e ∷ es) s inside h =
        add_entries-Knows es _ (λ q held. inside q (later held))
          (if_kept (more e.path s) s e.is_directory
            (λ folder. keep e.path s (inside e.path (first refl folder)) h) h)

    add_entries-finds :
        (q : Text) (es : List DirEntry) (s : Watched sys)
        → ((q : Text) → Holds q es → In q)
        → ((s : Watched sys) → Knows (more q s))
        → Holds q es
        → Knows (add_entries sys more es s)
    unfolding add_entries
    add_entries-finds q [] s inside finds h = elim h [ ]
    add_entries-finds q (e ∷ es) s inside finds (first path folder) =
        add_entries-Knows es _ (λ q held. inside q (later held)) (rw (folder, path) (finds s))
    add_entries-finds q (e ∷ es) s inside finds (later h) =
        add_entries-finds q es _ (λ q held. inside q (later held)) finds h

    after_add-keeps :
        (p : Text) (table : Table) (a : ℤ × sys.World)
        → In p
        → find (wd_of dir) table ≡ some (relative_dir watch_path dir)
        → a.0 ≡ wd_of p
        → Knows (after_add sys more watch_path p table a)
    unfolding after_add
    after_add-keeps p table (wd, w) inside h e =
        rw (e, wd_nonnegative p inside)
          (add_entries-Knows (sys.entries p w).0 (_, (sys.entries p w).1)
            (λ q. entries-In p q w inside) (set-Knows p table inside h))

    after_add-here :
        (table : Table) (a : ℤ × sys.World)
        → In dir
        → a.0 ≡ wd_of dir
        → Knows (after_add sys more watch_path dir table a)
    unfolding after_add
    after_add-here table (wd, w) inside e =
        rw (e, wd_nonnegative dir inside)
          (add_entries-Knows (sys.entries dir w).0 (_, (sys.entries dir w).1)
            (λ q. entries-In dir q w inside)
            (find-set (wd_of dir) (wd_of dir) (relative_dir watch_path dir) table
              ∙ rw (int_eq_refl (wd_of dir)) refl))

    after_add-finds :
        (p q : Text) (table : Table) (a : ℤ × sys.World)
        → In p
        → ((s : Watched sys) → Knows (more q s))
        → Holds q (tree p)
        → a.0 ≡ wd_of p
        → Knows (after_add sys more watch_path p table a)
    unfolding after_add
    after_add-finds p q table (wd, w) inside finds h e =
        rw (e, wd_nonnegative p inside)
          (add_entries-finds q (sys.entries p w).0 (_, (sys.entries p w).1)
            (λ q. entries-In p q w inside) finds
            (subst (Holds q) (sym (entries_tree p w inside)) h))

  -- What is known stays known.
  add_watch_recursive-keeps :
      (depth : ℕ) (p : Text) (s : Watched sys)
      → In p
      → Knows s
      → Knows (add_watch_recursive sys depth fd watch_path p s)
  unfolding add_watch_recursive
  add_watch_recursive-keeps zero p s inside h = h
  add_watch_recursive-keeps (suc depth) p (table, w) inside h =
      after_add-keeps (add_watch_recursive sys depth fd watch_path)
        (add_watch_recursive-keeps depth) p table (sys.add_watch fd p w) inside h
        (add_watch-wd fd p w inside)

  pub add_watch_recursive-Knows :
      {n : ℕ} {p r : Text} (depth : ℕ) (s : Watched sys)
      → In p
      → IsBelow tree n p r
      → r ≡ dir
      → n < depth
      → Knows (add_watch_recursive sys depth fd watch_path p s)
  unfolding add_watch_recursive
  add_watch_recursive-Knows zero s inside h e lt = absurd (omega arith)
  add_watch_recursive-Knows (suc depth) (table, w) inside (here {n} {p}) e lt =
      let at_dir : In dir = subst In e inside in
      subst
        (λ x. Knows (
          after_add sys (add_watch_recursive sys depth fd watch_path) watch_path x table
            (sys.add_watch fd x w)))
        (sym e)
        (after_add-here (add_watch_recursive sys depth fd watch_path)
          (add_watch_recursive-keeps depth) table (sys.add_watch fd dir w) at_dir
          (add_watch-wd fd dir w at_dir))
  add_watch_recursive-Knows (suc depth) (table, w) inside (down {n} {p} {q} {r} held h) e lt =
      after_add-finds (add_watch_recursive sys depth fd watch_path)
        (add_watch_recursive-keeps depth) p q table (sys.add_watch fd p w) inside
        (λ s.
          add_watch_recursive-Knows depth s (suc inside.0, below_again inside.1 held) h e
            (omega arith))
        held (add_watch-wd fd p w inside)
