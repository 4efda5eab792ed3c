-- ===== src/Watch/ChangesStop.antt =====
-- The handles of `ReadDirectoryChangesWatcher`.
use action_learning_p2p_vers.Prelude.{
  ℕ, zero, suc, ◌+◌, ◌≡◌, refl, ◌∙◌, Bool, true, false, List, [], ◌∷◌, Option, none, some, arith,
  inl, inr, Bool-cases, if◌then◌else◌,
}
use action_learning_p2p_vers.Prelude.Int.{ℤ, minus_one}
use action_learning_p2p_vers.Prelude.Text.{Text}
use action_learning_p2p_vers.Sockets.{int_eq, int_eq→eq}
use action_learning_p2p_vers.Watch.Changes.{WideChar}
use action_learning_p2p_vers.Watch.ChangesLoop.{
  System, Watcher, WaitResult, signalled, wait_timeout, wait_failed, Round, breaks, goes_on, stop,
  close_dir, open_dir, widened, after_result, after_wait, round, after_round, loop, close_all,
  after_event, after_open, watch_loop,
}

-- Which handles are open: a handle that is made was not, and is from then on; closing a handle leaves
-- that one closed and the others as they were; no other call makes or closes a handle.
pub record IsOpening (sys : System) : Type 0 where
  pub is_open : sys.World → ℤ → Bool
  pub create_file_fresh :
      (p : List ℕ) (w : sys.World)
      → int_eq (sys.create_file p w).0 minus_one ≡ false
      → is_open w (sys.create_file p w).0 ≡ false
  pub open-create_file :
      (p : List ℕ) (w : sys.World) (g : ℤ)
      → is_open (sys.create_file p w).1 g ≡ (
          if int_eq (sys.create_file p w).0 minus_one
          then is_open w g
          else if int_eq g (sys.create_file p w).0
          then true
          else is_open w g)
  pub create_event_fresh :
      (w : sys.World) (e : ℤ) → (sys.create_event w).0 ≡ some e → is_open w e ≡ false
  pub open-create_event :
      (w : sys.World) (g : ℤ)
      → is_open (sys.create_event w).1 g ≡ elim (sys.create_event w).0 [
        | none ↦ is_open w g
        | some e ↦ if int_eq g e then true else is_open w g
      ]
  pub open-close_handle :
      (h : ℤ) (w : sys.World) (g : ℤ)
      → is_open (sys.close_handle h w) g ≡ (if int_eq g h then false else is_open w g)
  pub open-load : (w : sys.World) (g : ℤ) → is_open (sys.load w).1 g ≡ is_open w g
  pub open-store_false : (w : sys.World) (g : ℤ) → is_open (sys.store_false w) g ≡ is_open w g
  pub open-read_changes :
      (h e : ℤ) (w : sys.World) (g : ℤ) → is_open (sys.read_changes h e w).1 g ≡ is_open w g
  pub open-wait : (e : ℤ) (w : sys.World) (g : ℤ) → is_open (sys.wait e w).1 g ≡ is_open w g
  pub open-cancel : (h : ℤ) (w : sys.World) (g : ℤ) → is_open (sys.cancel h w) g ≡ is_open w g
  pub open-overlapped_result :
      (h : ℤ) (w : sys.World) (g : ℤ) → is_open (sys.overlapped_result h w).1 g ≡ is_open w g
  pub open-reset_event :
      (e : ℤ) (w : sys.World) (g : ℤ) → is_open (sys.reset_event e w) g ≡ is_open w g

module _ (sys : System) (wide : WideChar) (opening : IsOpening sys) (g : ℤ) where
  open opening use {
    is_open, create_file_fresh, open-create_file, create_event_fresh, open-create_event,
    open-close_handle, open-load, open-store_false, open-read_changes, open-wait, open-cancel,
    open-overlapped_result, open-reset_event,
  }

  abbrev After : Bool → Round sys.World → Type 0
  After k (breaks w) = is_open w g ≡ k
  After k (goes_on events w) = is_open w g ≡ k

  after_result-After :
      (k : Bool) (event : ℤ) (r : Option Text × sys.World)
      → is_open r.1 g ≡ k
      → After k (after_result sys wide event r)
  unfolding after_result
  after_result-After k event (none, w) e = open-reset_event event w g ∙ e
  after_result-After k event (some [], w) e = open-reset_event event w g ∙ e
  after_result-After k event (some (b ∷ bytes), w) e = open-reset_event event w g ∙ e

  after_wait-After :
      (k : Bool) (h event : ℤ) (runs : Bool) (r : WaitResult) (w : sys.World)
      → is_open w g ≡ k
      → After k (after_wait sys wide h event runs r w)
  unfolding after_wait
  after_wait-After k h event false r w e = e
  after_wait-After k h event true wait_timeout w e = open-cancel h w g ∙ e
  after_wait-After k h event true wait_failed w e = e
  after_wait-After k h event true signalled w e =
      after_result-After k event _ (open-overlapped_result h w g ∙ e)

  After-if :
      (k b : Bool) (x y : Round sys.World) → After k x → After k y → After k (if b then x else y)
  After-if k true x y hx hy = hx
  After-if k false x y hx hy = hy

  round-After :
      (k : Bool) (h event : ℤ) (w : sys.World)
      → is_open w g ≡ k
      → After k (round sys wide h event w)
  unfolding round
  round-After k h event w e =
      let (success, w1) = sys.read_changes h event w in
      let same : is_open w1 g ≡ k = open-read_changes h event w g ∙ e in
      let (r, w2) = sys.wait event w1 in
      After-if k success _ (breaks w1)
        (after_wait-After k h event _ r _ (open-load w2 g ∙ open-wait event w1 g ∙ same)) same

  after_round-open :
      (k : Bool) (more : sys.World → List _ × sys.World) (r : Round sys.World)
      → ((w : sys.World) → is_open w g ≡ k → is_open (more w).1 g ≡ k)
      → After k r
      → is_open (after_round sys wide more r).1 g ≡ k
  unfolding after_round
  after_round-open k more (breaks w) ih e = e
  after_round-open k more (goes_on events w) ih e = ih w e

  loop-open :
      (k : Bool) (rounds : ℕ) (h event : ℤ) (w : sys.World)
      → is_open w g ≡ k
      → is_open (loop sys wide rounds h event w).1 g ≡ k
  unfolding loop
  loop-open k zero h event w e = e
  loop-open k (suc rounds) h event w e =
      let same : is_open (sys.load w).1 g ≡ k = open-load w g ∙ e in
      elim (Bool-cases (sys.load w).0) [
        | inl t ↦ rw t (
            after_round-open k _ _ (loop-open k rounds h event)
              (round-After k h event (sys.load w).1 same))
        | inr f ↦ rw f same
      ]

  -- Closing a handle that was made leaves the handles as they were before.
  given_back :
      (h : ℤ) (w w1 : sys.World)
      → is_open w h ≡ false
      → is_open w1 g ≡ (if int_eq g h then true else is_open w g)
      → is_open (sys.close_handle h w1) g ≡ is_open w g
  given_back h w w1 fresh made = elim (Bool-cases (int_eq g h)) [
    | inl t ↦ ground (arith, open-close_handle h w1 g, int_eq→eq g h t)
    | inr f ↦ ground (arith, open-close_handle h w1 g)
  ]

  after_event-open :
      (rounds : ℕ) (h : ℤ) (v : Watcher) (w w1 : sys.World) (r : Option ℤ × sys.World)
      → is_open w h ≡ false
      → is_open w1 g ≡ (if int_eq g h then true else is_open w g)
      → ((e : ℤ) → r.0 ≡ some e → is_open w1 e ≡ false)
      → is_open r.1 g
        ≡ elim r.0 [ none ↦ is_open w1 g | some e ↦ if int_eq g e then true else is_open w1 g ]
      → is_open (after_event sys wide rounds h v r).2 g ≡ is_open w g
  unfolding after_event close_all
  after_event-open rounds h v w w1 (none, w2) fresh made fresh_event e =
      open-store_false (sys.close_handle h w2) g ∙ given_back h w w2 fresh (e ∙ made)
  after_event-open rounds h v w w1 (some event, w2) fresh made fresh_event e =
      let w3 = (loop sys wide rounds h event w2).1 in
      given_back h w (sys.close_handle event w3) fresh
        (given_back event w1 w3 (fresh_event event refl) (loop-open _ rounds h event w2 e) ∙ made)

  -- What `open_dir` has made of the handles.
  abbrev Opened : sys.World → Option ℤ × Watcher × sys.World → Type 0
  Opened w (none, v, w1) = is_open w1 g ≡ is_open w g
  Opened w (some h, v, w1) =
      (is_open w h ≡ false) × (is_open w1 g ≡ (if int_eq g h then true else is_open w g))

  after_open-open :
      (rounds : ℕ) (w : sys.World) (r : Option ℤ × Watcher × sys.World)
      → Opened w r
      → is_open (after_open sys wide rounds r).2 g ≡ is_open w g
  unfolding after_open
  after_open-open rounds w (none, v, w1) e = e
  after_open-open rounds w (some h, v, w1) (fresh, made) =
      after_event-open rounds h v w w1 (sys.create_event w1) fresh made (create_event_fresh w1)
        (open-create_event w1 g)

  open_dir-Opened : (v : Watcher) (w : sys.World) → Opened w (open_dir sys wide v w)
  unfolding open_dir
  open_dir-Opened v w =
      let (h, w1) = sys.create_file (widened v.watch_path) w in
      let made = open-create_file (widened v.watch_path) w g in
      elim (Bool-cases (int_eq h minus_one)) [
        | inl t ↦ rw t (ground (arith, made, t, open-store_false w1 g))
        | inr f ↦
            let fresh : is_open w h ≡ false = create_file_fresh (widened v.watch_path) w f in
            let opened : is_open (sys.load w1).1 g ≡ (if int_eq g h then true else is_open w g) =
              ground (arith, made, f, open-load w1 g) in
            elim (Bool-cases (sys.load w1).0) [
              | inl runs ↦ rw (f, runs) (fresh, opened)
              | inr stops ↦ rw (f, stops) (given_back h w (sys.load w1).1 fresh opened)
            ]
      ]

  -- On every path through it, with any number of rounds of its loop and whatever the calls of the
  -- system return, the thread ends with the very handles open that were open when it began, as long
  -- as `stop` closes none of them meanwhile: it closes the directory and the event that it has made.
  pub watch_loop-handles :
      (rounds : ℕ) (v : Watcher) (w : sys.World)
      → is_open (watch_loop sys wide rounds v w).2 g ≡ is_open w g
  unfolding watch_loop
  watch_loop-handles rounds v w =
      after_open-open rounds w (open_dir sys wide v w) (open_dir-Opened v w)

-- How often a handle has been closed; no other call of `stop` closes one.
pub record IsClosing (sys : System) (h : ℤ) : Type 0 where
  pub closed : sys.World → ℕ
  pub closed-close_handle :
      (g : ℤ) (w : sys.World)
      → closed (sys.close_handle g w) ≡ (if int_eq g h then suc (closed w) else closed w)
  pub closed-exchange : (b : Bool) (w : sys.World) → closed (sys.exchange b w).1 ≡ closed w
  pub closed-cancel : (g : ℤ) (w : sys.World) → closed (sys.cancel g w) ≡ closed w
  pub closed-set_event : (e : ℤ) (w : sys.World) → closed (sys.set_event e w) ≡ closed w

module _ (sys : System) (wide : WideChar) (h : ℤ) (closing : IsClosing sys h) where
  open closing use {closed, closed-close_handle, closed-exchange, closed-cancel}

  -- Where `stop` comes while the thread is in its loop, with the directory open as `h`, the thread
  -- then closes `h` when it ends, which `stop` has closed: the handle is closed twice, and the second
  -- time it may be that of another file.
  pub stop-closes_twice :
      (event : ℤ) (path : Text) (w w1 : sys.World)
      → int_eq h minus_one ≡ false
      → int_eq h h ≡ true
      → int_eq event h ≡ false
      → sys.exchange false w ≡ (true, w1)
      → let v : Watcher = record { watch_path = path; h_dir = h; h_event = none } in
        let (went_on, v', w2) = stop sys wide v w in
        closed (close_all sys wide h event v' w2).1 ≡ 2 + closed w
  unfolding stop close_dir close_all
  stop-closes_twice event path w w1 valid same other was =
      let w2 = sys.close_handle h (sys.cancel h w1) in
      rw (was, valid)
        (ground (
          arith,
          closed-close_handle h (sys.close_handle event w2),
          closed-close_handle event w2,
          closed-close_handle h (sys.cancel h w1),
          closed-cancel h w1,
          closed-exchange false w,
          same,
          other,
          was,
        ))
