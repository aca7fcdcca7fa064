-- ===== src/Admission/Acceptance.antt =====
-- Which machine deployments the validation of machinedeployments_validation.go accepts.
use machine_controller.Base.{
  ℕ, ◌≤◌, String, ◌≡◌, sym, ◌∙◌, refl, ◌↔◌, Bool, true, false, ◌&&◌, Option, none, some, List, [],
  ◌∷◌, ◌++◌, arith,
}
use machine_controller.Base.Int.{ℤ, pos, negsuc, is_negative, is_zero}
use machine_controller.Admission.Deployments.{
  FieldError, IntOrString, RollingUpdate, Validators, value_or_zero, single, error_if,
  validate_positive_int_or_percent, validate_max_unavailable, validate_max_surge, both_zero,
  validate_machine_rolling_update_deployment,
}

pub append-eq-nil : (xs ys : List FieldError) → (xs ++ ys ≡ []) ↔ ((xs ≡ []) × (ys ≡ []))
append-eq-nil [] ys = (λ e. (refl, e), λ h. h.1)
append-eq-nil (x ∷ xs) ys = (λ e. absurd (ground (arith, e)), λ h. absurd (ground (arith, h.0)))

pub error_if-eq-nil : (b : Bool) (p d : String) → (error_if b p d ≡ []) ↔ (b ≡ false)
error_if-eq-nil true p d = (λ e. absurd (ground (arith, e)), λ e. cc)
error_if-eq-nil false p d = (λ _. refl, λ _. refl)

module _ (v : Validators) where
  -- What `maxUnavailable` must be: absent, or a number or percentage that is not negative and, if
  -- it is a percentage, at most 100.
  abbrev pub IsUnavailable : Option IntOrString → Type 0
  IsUnavailable none = Unit
  IsUnavailable (some s) =
      (n : ℕ) × (v.value_out_of_100 s false ≡ some (pos n))
      × (v.is_valid_percent s.str_val ≡ true → n ≤ 100)

  -- What `maxSurge` must be: absent, or a number or percentage that is not negative.
  abbrev pub IsSurge : Option IntOrString → Type 0
  IsSurge none = Unit
  IsSurge (some s) = (n : ℕ) × (v.value_out_of_100 s false ≡ some (pos n))

  -- If both are given, one of them is not zero, the surge being rounded up.
  abbrev pub MakesProgress : RollingUpdate → Type 0
  MakesProgress u =
      (a b : IntOrString)
      → u.max_unavailable ≡ some a
      → u.max_surge ≡ some b
      → value_or_zero (v.value_out_of_100 a false) ≡ pos 0
      → value_or_zero (v.value_out_of_100 b true) ≡ pos 0
      → ⊥

  positive_iff :
      (s : IntOrString) (p : String)
      → (validate_positive_int_or_percent v s p ≡ [])
        ↔ ((n : ℕ) × (v.value_out_of_100 s false ≡ some (pos n)))
  unfolding validate_positive_int_or_percent
  positive_iff s p = (λ e. go (v.value_out_of_100 s false) refl e, λ (n, e). ground (arith, e))
    where
      go :
          (o : Option ℤ)
          → v.value_out_of_100 s false ≡ o
          → (elim o [
            | none ↦ single p "value should be int(5) or percentage(5%)"
            | some x ↦ error_if (is_negative x) p "value should not be negative"
          ])
            ≡ []
          → (n : ℕ) × (v.value_out_of_100 s false ≡ some (pos n))
      go none o e = absurd (ground (arith, e))
      go (some (pos n)) o e = (n, o)
      go (some (negsuc n)) o e = absurd (ground (arith, e))

  IsUnavailable-iff :
      (o : Option IntOrString) → (validate_max_unavailable v o ≡ []) ↔ IsUnavailable o
  unfolding validate_max_unavailable
  IsUnavailable-iff none = (λ _. tt, λ _. refl)
  IsUnavailable-iff (some s) = (
    λ e.
        let (positive, bounded) = (append-eq-nil _ _).0 e in
        let (n, value) = (positive_iff s "maxUnavailable").0 positive in
        (n, value, λ percent. ground (arith, (error_if-eq-nil _ _ _).0 bounded)),
    λ (n, value, bounded). (append-eq-nil _ _).1 (
      (positive_iff s "maxUnavailable").1 (n, value),
      (error_if-eq-nil _ _ _).1 (ground (arith, value, bounded)),
    ),
  )

  IsSurge-iff : (o : Option IntOrString) → (validate_max_surge v o ≡ []) ↔ IsSurge o
  unfolding validate_max_surge
  IsSurge-iff none = (λ _. tt, λ _. refl)
  IsSurge-iff (some s) = positive_iff s "maxSurge"

  zero_iff : (i : ℤ) → (is_zero i ≡ true) ↔ (i ≡ pos 0)
  zero_iff i = (λ e. ground arith, λ e. ground arith)

  zeros_iff : (i j : ℤ) → (is_zero i && is_zero j ≡ false) ↔ (i ≡ pos 0 → j ≡ pos 0 → ⊥)
  zeros_iff i j = (
    λ e p q. ground (arith, (zero_iff i).1 p, (zero_iff j).1 q, e),
    λ h. go (is_zero i) (is_zero j) refl refl h,
  )
    where
      go :
          (a b : Bool)
          → is_zero i ≡ a
          → is_zero j ≡ b
          → (i ≡ pos 0 → j ≡ pos 0 → ⊥)
          → (is_zero i && is_zero j ≡ false)
      go false b p q h = ground (arith, p)
      go true false p q h = ground (arith, p, q)
      go true true p q h = absurd (h ((zero_iff i).0 p) ((zero_iff j).0 q))

  both_zero_at :
      (u : RollingUpdate) (a b : IntOrString)
      → u.max_unavailable ≡ some a
      → u.max_surge ≡ some b
      → both_zero v u ≡ (
          is_zero (value_or_zero (v.value_out_of_100 a false))
          && is_zero (value_or_zero (v.value_out_of_100 b true)))
  both_zero_at u a b p q = rw (p, q) refl

  progress_iff : (u : RollingUpdate) → (both_zero v u ≡ false) ↔ MakesProgress u
  progress_iff u = go u.max_unavailable u.max_surge refl refl
    where
      go :
          (a b : Option IntOrString)
          → u.max_unavailable ≡ a
          → u.max_surge ≡ b
          → (both_zero v u ≡ false) ↔ MakesProgress u
      go none b p q = (λ e x y i. absurd (ground (arith, p, i)), λ h. ground (arith, p))
      go (some a) none p q = (λ e x y i j. absurd (ground (arith, q, j)), λ h. ground (arith, p, q))
      go (some a) (some b) p q =
          let computed = both_zero_at u a b p q in
          (
            λ e x y i j d f. (zeros_iff _ _).0 (sym computed ∙ e) (cc) (cc),
            λ h. rw computed ((zeros_iff _ _).1 (h a b p q)),
          )

  -- The rolling update of a machine deployment is accepted if and only if `maxUnavailable` is
  -- absent, or a number or percentage that is not negative and, as a percentage, at most 100;
  -- `maxSurge` is absent or not negative; and, if both are given, not both of them are zero.
  pub validate_machine_rolling_update_deployment-accepts :
      (u : RollingUpdate)
      → (validate_machine_rolling_update_deployment v u ≡ [])
        ↔ (IsUnavailable u.max_unavailable × IsSurge u.max_surge × MakesProgress u)
  unfolding validate_machine_rolling_update_deployment
  validate_machine_rolling_update_deployment-accepts u = (
    λ e.
        let (a, rest) = (append-eq-nil _ _).0 e in
        let (b, d) = (append-eq-nil _ _).0 rest in
        (
          (IsUnavailable-iff _).0 a,
          (IsSurge-iff _).0 b,
          (progress_iff u).0 ((error_if-eq-nil _ _ _).0 d),
        ),
    λ (a, b, d). (append-eq-nil _ _).1 (
      (IsUnavailable-iff _).1 a,
      (append-eq-nil _ _).1 ((IsSurge-iff _).1 b, (error_if-eq-nil _ _ _).1 ((progress_iff u).1 d)),
    ),
  )
