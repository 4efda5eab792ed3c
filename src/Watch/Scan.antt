-- ===== src/Watch/Scan.antt =====
-- What a round of the polling watcher leaves in the map, and which events it makes, against the
-- files that the scan has met.
use action_learning_p2p_vers.Prelude.{
  ◌≡◌, refl, Bool, true, false, ◌||◌, ◌&&◌, List, [], ◌∷◌, Option, none, some, arith, inl, inr,
  Bool-cases, if◌then◌else◌, ap,
}
use action_learning_p2p_vers.Prelude.Text.{Text, text_eq, text_eq_iff}
use action_learning_p2p_vers.Watch.Polling.{
  FileInfo, Entry, Step, meets, fails, Known, find, set, is_tracked, same_info, notice, visit,
  is_seen, see, scan, sweep, poll,
}

abbrev pub is_some : Option FileInfo → Bool
is_some none = false
is_some (some i) = true

abbrev pub or_else : Option FileInfo → Option FileInfo → Option FileInfo
or_else none o = o
or_else (some i) o = some i

abbrev pub is_at : Text → Entry → Bool
is_at q e = is_tracked e && text_eq q e.rel_path

-- What the scan has met last at a path, before it failed.
unfoldable pub latest : Text → List Step → Option FileInfo
latest q [] = none
latest q (fails ∷ steps) = none
latest q (meets e ∷ steps) =
    let later = latest q steps in or_else later (if is_at q e then some e.info else none)

pub find-set :
    (q p : Text) (i : FileInfo) (ks : Known)
    → find q (set p i ks) ≡ (if text_eq q p then some i else find q ks)
unfolding find set
find-set q p i [] = refl
find-set q p i ((r, j) ∷ ks) =
    ground (arith, text_eq_iff q p, text_eq_iff p r, text_eq_iff q r, find-set q p i ks)

same_info_eq : (i j : FileInfo) → same_info i j ≡ true → i ≡ j
same_info_eq i j h =
    let times : i.last_write_time ≡ j.last_write_time = ground arith in
    let sizes : i.size ≡ j.size = ground arith in
    λ k. record { last_write_time = times k; size = sizes k }

notice-find :
    (q p : Text) (i : FileInfo) (known : Known) (o : Option FileInfo)
    → find p known ≡ o
    → find q (notice p i known o).0 ≡ (if text_eq q p then some i else find q known)
unfolding notice
notice-find q p i known none h = find-set q p i known
notice-find q p i known (some j) h = elim (Bool-cases (same_info j i)) [
  | inr t ↦ rw t (find-set q p i known)
  | inl t ↦ rw t (ground (arith, text_eq_iff q p, same_info_eq j i t))
]

pub visit-find :
    (q : Text) (e : Entry) (known : Known)
    → find q (visit e known).0 ≡ (if is_at q e then some e.info else find q known)
unfolding visit
visit-find q e known = elim (Bool-cases (is_tracked e)) [
  | inl t ↦ rw t (notice-find q e.rel_path e.info known (find e.rel_path known) refl)
  | inr t ↦ rw t refl
]

pub scan-find :
    (q : Text) (steps : List Step) (known : Known) (seen : List Text)
    → find q (scan steps known seen).0 ≡ or_else (latest q steps) (find q known)
unfolding scan latest
scan-find q [] known seen = refl
scan-find q (fails ∷ steps) known seen = refl
scan-find q (meets e ∷ steps) known seen =
    ground (arith, scan-find q steps (visit e known).0 (see e seen), visit-find q e known)

pub scan-seen :
    (q : Text) (steps : List Step) (known : Known) (seen : List Text)
    → is_seen q (scan steps known seen).1 ≡ is_some (latest q steps) || is_seen q seen
unfolding scan latest is_seen
scan-seen q [] known seen = refl
scan-seen q (fails ∷ steps) known seen = refl
scan-seen q (meets e ∷ steps) known seen =
    ground (arith, scan-seen q steps (visit e known).0 (see e seen))

pub is_seen_eq : (p q : Text) (seen : List Text) → p ≡ q → is_seen p seen ≡ is_seen q seen
is_seen_eq p q seen h = ap (λ x. is_seen x seen) h

pub sweep-find :
    (q : Text) (seen : List Text) (ks : Known)
    → find q (sweep seen ks).0 ≡ (if is_seen q seen then find q ks else none)
unfolding sweep find
sweep-find q seen [] = ground arith
sweep-find q seen ((p, i) ∷ ks) =
    ground (arith, sweep-find q seen ks, text_eq_iff q p, is_seen_eq q p seen)

-- After a round the map holds, at each path, what the scan has met there last, and nothing else.
pub poll-find :
    (q : Text) (steps : List Step) (known : Known) → find q (poll steps known).0 ≡ latest q steps
unfolding poll is_seen
poll-find q steps known = ground (
  arith,
  sweep-find q (scan steps known []).1 (scan steps known []).0,
  scan-seen q steps known [],
  scan-find q steps known [],
)
