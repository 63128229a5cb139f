-- ===== src/Transport/Filling.antt =====
-- What follows from the laws of a `read_exact` that is polled.
use rust_state_machine_cowbo.Prelude.{
  ℕ, zero, suc, ◌+◌, ◌<◌, List, [], ◌∷◌, ◌++◌, append_assoc, length, length-append, ◌≡◌, refl, sym,
  ap, ◌∙◌, ◌⊎◌, inl, inr, arith,
}
use rust_state_machine_cowbo.Transport.Polling.{ReadExact, FillsInOrder}

pub split_at :
    (n : ℕ) (xs : List ℕ)
    → (length xs < n) ⊎ ((front back : List ℕ) × (xs ≡ front ++ back) × (length front ≡ n))
split_at zero xs = inr ([], xs, refl, refl)
split_at (suc n) [] = inl (omega arith)
split_at (suc n) (x ∷ xs) = elim (split_at n xs) [
  | inl h ↦ inl (omega (arith, h))
  | inr (front, back, e, h) ↦ inr (x ∷ front, back, ap (λ l. x ∷ l) e, omega (arith, h))
]

module _ (fill : ReadExact) (law : FillsInOrder fill) where
  filled :
      (n : ℕ) (got xs front back : List ℕ)
      → xs ≡ front ++ back
      → length front ≡ n
      → fill n got xs ≡ (zero, got ++ front, back)
  filled n got xs front back e h = ap (fill n got) e ∙ law.enough n got front back h

  -- If bytes are missing afterwards, all that were there are in the buffer.
  stopped :
      (n : ℕ) (got xs : List ℕ) {m : ℕ}
      → (fill n got xs).0 ≡ suc m
      → (fill n got xs ≡ (suc m, got ++ xs, [])) × (suc m + length xs ≡ n)
  stopped n got xs {m} h = elim (split_at n xs) [
    | inl few ↦
        let (k, e, f) = law.few n got xs few in
        let same = sym (ap (λ x. x.0) f) ∙ h in
        (f ∙ ap (λ j. (j, got ++ xs, [])) same, omega (arith, e, same))
    | inr (front, back, e, size) ↦ absurd (cc (filled n got xs front back e size, h))
  ]

  pub fill_short :
      (n : ℕ) (got xs : List ℕ) {m : ℕ} → (fill n got xs).0 ≡ suc m → (fill n got xs).2 ≡ []
  fill_short n got xs h = ap (λ x. x.2) (stopped n got xs h).0

  -- A fill that stops short is gone on with.
  pub fill_resumes :
      (n : ℕ) (got xs ys : List ℕ) {m : ℕ}
      → (fill n got xs).0 ≡ suc m
      → fill (suc m) (fill n got xs).1 ys ≡ fill n got (xs ++ ys)
  fill_resumes n got xs ys {m} h =
      let (f, size) = stopped n got xs h in
      ap (λ x. fill (suc m) x.1 ys) f ∙ elim (split_at (suc m) ys) [
        | inl few ↦
            let (k, e, g) = law.few (suc m) (got ++ xs) ys few in
            let (k', e', g') =
              law.few n got (xs ++ ys) (omega (arith, size, few, length-append xs ys)) in
            let same : k ≡ k' = omega (arith, size, e, e', length-append xs ys) in
            g
            ∙ ap (λ l. (k, l, [])) (append_assoc got xs ys)
            ∙ ap (λ j. (j, got ++ (xs ++ ys), [])) same
            ∙ sym g'
        | inr (front, back, e, h') ↦
            filled (suc m) (got ++ xs) ys front back e h'
            ∙ ap (λ l. (zero, l, back)) (append_assoc got xs front)
            ∙ sym (
                filled n got (xs ++ ys) (xs ++ front) back
                  (ap (λ l. xs ++ l) e ∙ sym (append_assoc xs front back))
                  (omega (arith, size, h', length-append xs front)))
      ]

  pub fill_done :
      (n : ℕ) (got xs ys : List ℕ)
      → (fill n got xs).0 ≡ zero
      → fill n got (xs ++ ys) ≡ (zero, (fill n got xs).1, (fill n got xs).2 ++ ys)
  fill_done n got xs ys h = elim (split_at n xs) [
    | inl few ↦
        let (k, e, f) = law.few n got xs few in
        let none_left : k ≡ zero = sym (ap (λ x. x.0) f) ∙ h in
        absurd (omega (arith, few, e, none_left))
    | inr (front, back, e, size) ↦
        filled n got (xs ++ ys) front (back ++ ys)
          (ap (λ l. l ++ ys) e ∙ append_assoc front back ys) size
        ∙ ap (λ x. (zero, x.1, x.2 ++ ys)) (sym (filled n got xs front back e size))
  ]
