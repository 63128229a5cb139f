-- ===== src/Core/Mode/Completion.antt =====
-- A transition that everybody agrees to comes to an end, whatever the order of the answers.
use rust_state_machine_cowbo.Prelude.{
  ℕ, Bool, true, false, ◌||◌, ◌≡◌, refl, sym, inl, inr, List, [], ◌∷◌, ◌++◌, map, ok, arith, nat_eq,
  string_eq, ==_refl, ◌∙◌, subst,
}
use rust_state_machine_cowbo.HashSet.{
  HashSet, contains-remove, contains-insert, contains-collect, not-is_empty-insert, contains_cons,
  contains_nil,
}
use rust_state_machine_cowbo.HashSet
use text.Mathlib.TextEquality.{eq_iff}
use rust_state_machine_cowbo.Protocol.{SystemMode, TransitionId, ApplicationId, mode_eq}
use rust_state_machine_cowbo.Core.Mode.{
  stable, preparing, committing, ModeManager, Operation, ready, committed, request_transition,
  current_mode, wrapping_add, step, run,
}
use rust_state_machine_cowbo.Core.Mode.Responses.{
  manager, ready_outcome, committed_outcome, run-step,
}
use rust_state_machine_cowbo.Core.Mode.Consent.{request_accepted}

-- Every member of the set answers somewhere in the list.
abbrev pub IsCovered : HashSet ApplicationId → List ApplicationId → Type 0
IsCovered w xs = (a : ApplicationId) → HashSet.contains a w ≡ true → HashSet.contains a xs ≡ true

not-IsCovered-nil : (w : HashSet ApplicationId) → HashSet.is_empty w ≡ false → IsCovered w [] → ⊥
unfolding HashSet.contains
not-IsCovered-nil [] e h = cc
not-IsCovered-nil (a ∷ w) e h = cc (h a (ground (arith, ==_refl a)))

IsCovered-remove :
    (x : ApplicationId) (w : HashSet ApplicationId) (xs : List ApplicationId)
    → IsCovered w (x ∷ xs)
    → IsCovered (HashSet.remove x w) xs
IsCovered-remove x w xs h a m = ground (arith, contains-remove a x w, contains_cons a x xs, h a)

IsCovered-skip :
    (x : ApplicationId) (w : HashSet ApplicationId) (xs : List ApplicationId)
    → HashSet.contains x w ≡ false
    → IsCovered w (x ∷ xs)
    → IsCovered w xs
IsCovered-skip x w xs f h =
    subst (λ v. IsCovered v xs) (HashSet.remove-eq_self x w f) (IsCovered-remove x w xs h)

pub run-append : (m : ModeManager) (os ps : List Operation) → run m (os ++ ps) ≡ run (run m os) ps
unfolding run
run-append m [] ps = refl
run-append m (o ∷ os) ps = run-append (step m o) os ps

abbrev pub readies : TransitionId → List ApplicationId → List Operation
readies i = map λ a. ready a i

abbrev pub commits : TransitionId → SystemMode → List ApplicationId → List Operation
commits i t = map λ a. committed a i t

stable_commits :
    (t : SystemMode) (n : ℕ) (i : TransitionId) (mode : SystemMode) (xs : List ApplicationId)
    → run (manager (stable t) n) (commits i mode xs) ≡ manager (stable t) n
unfolding run step
stable_commits t n i mode [] = refl
stable_commits t n i mode (x ∷ xs) = stable_commits t n i mode xs

committing_readies :
    (i : TransitionId) (p t : SystemMode) (w d : HashSet ApplicationId) (n : ℕ)
    (xs : List ApplicationId)
    → run (manager (committing i p t w d) n) (readies i xs) ≡ manager (committing i p t w d) n
unfolding run step
committing_readies i p t w d n [] = refl
committing_readies i p t w d n (x ∷ xs) = committing_readies i p t w d n xs

commits_complete :
    (i : TransitionId) (p t : SystemMode) (w d : HashSet ApplicationId) (n : ℕ)
    (xs : List ApplicationId)
    → HashSet.is_empty w ≡ false
    → IsCovered w xs
    → run (manager (committing i p t w d) n) (commits i t xs) ≡ manager (stable t) n
commits_complete i p t w d n [] e h = absurd (not-IsCovered-nil w e h)
commits_complete i p t w d n (x ∷ xs) e h = elim (committed_outcome i p t w d n x i t) [
  | inl (q, inl b) ↦ cc (==_refl i)
  | inl (q, inr (inl b)) ↦ cc (==_refl t)
  | inl (q, inr (inr b)) ↦
      run-step _ _ _ q ∙ commits_complete i p t w d n xs e (IsCovered-skip x w xs b h)
  | inr (inl (_, _, _, _, q)) ↦ run-step _ _ _ q ∙ stable_commits t n i t xs
  | inr (inr (_, _, _, f, q)) ↦
      run-step _ _ _ q
      ∙ commits_complete i p t (HashSet.remove x w) (HashSet.insert x d) n xs f
          (IsCovered-remove x w xs h)
]

-- All are ready: the manager is committing, and waits for the same applications once more.
readies_complete :
    (i : TransitionId) (c t : SystemMode) (w r : HashSet ApplicationId) (n : ℕ)
    (xs : List ApplicationId)
    → HashSet.is_empty w ≡ false
    → IsCovered w xs
    → (r' : HashSet ApplicationId) × (run (manager (preparing i c t w r) n) (readies i xs)
        ≡ manager (committing i c t r' []) n)
      × (HashSet.is_empty r' ≡ false)
      × ((a : ApplicationId)
          → HashSet.contains a r' ≡ true
          → (HashSet.contains a w || HashSet.contains a r) ≡ true)
readies_complete i c t w r n [] e h = absurd (not-IsCovered-nil w e h)
readies_complete i c t w r n (x ∷ xs) e h = elim (ready_outcome i c t w r n x i) [
  | inl (q, inl b) ↦ cc (==_refl i)
  | inl (q, inr b) ↦
      let (r', g, f, s) = readies_complete i c t w r n xs e (IsCovered-skip x w xs b h) in
      (r', run-step _ _ _ q ∙ g, f, s)
  | inr (inl (_, m, _, q)) ↦ (
    HashSet.insert x r,
    run-step _ _ _ q ∙ committing_readies i c t _ _ n xs,
    not-is_empty-insert x r,
    from_last m,
  )
  | inr (inr (_, m, f, q)) ↦
      let (r', g, f', s) =
        readies_complete i c t (HashSet.remove x w) (HashSet.insert x r) n xs f
          (IsCovered-remove x w xs h) in
      (r', run-step _ _ _ q ∙ g, f', λ a b. from_next m a (s a b))
]
  where
    from_last :
        HashSet.contains x w ≡ true
        → (a : ApplicationId) → HashSet.contains a (HashSet.insert x r) ≡ true
        → (HashSet.contains a w || HashSet.contains a r) ≡ true
    from_last m a b = ground (arith, contains-insert a x r, eq_iff x a)

    from_next :
        HashSet.contains x w ≡ true
        → (a : ApplicationId)
        → (HashSet.contains a (HashSet.remove x w) || HashSet.contains a (HashSet.insert x r))
          ≡ true
        → (HashSet.contains a w || HashSet.contains a r) ≡ true
    from_next m a b = ground (arith, contains-insert a x r, contains-remove a x w, eq_iff x a)

or_false : {a b : Bool} → b ≡ false → (a || b) ≡ true → a ≡ true
or_false e h = ground arith

-- After an accepted request, once every participant has answered that it is ready and then every
-- participant has confirmed the commit, in any two orders and with any repetitions, the manager is
-- stable in the requested mode.
pub all_agree_complete :
    (m : ModeManager) (target : SystemMode) (ps xs ys : List ApplicationId) {i : TransitionId}
    → (request_transition m target ps).1 ≡ ok i
    → IsCovered ps xs
    → IsCovered ps ys
    → (run (request_transition m target ps).0 (readies i xs ++ commits i target ys)).state
      ≡ stable target
all_agree_complete m target ps xs ys {i} h cx cy =
    let (_, _, f, _, e) = request_accepted m target ps h in
    let (r, g, f', s) =
      readies_complete i (current_mode m) target (HashSet.collect ps) []
        (wrapping_add m.next_transition_id 1) xs f (λ a b. cx a (rw (← contains-collect a ps) b)) in
    let covered : IsCovered r ys =
      λ a b. cy a (sym (contains-collect a ps) ∙ or_false (contains_nil a) (s a b)) in
    rw
      (
        e,
        run-append _ (readies i xs) (commits i target ys),
        g,
        commits_complete i (current_mode m) target r [] (wrapping_add m.next_transition_id 1) ys f'
            covered,
      )
      refl
