-- ===== src/Outcome/Inversion.antt =====
-- What a successful action says of its parts.
use machine_controller.Base.{◌≡◌, String, refl, ◌∙◌, ◌⊎◌, inl, inr, List, arith}
use machine_controller.Outcome.{
  Error, Outcome, ok, err, panicked, Act, raise, attempt, resume, pure, wrap, wrapped, ◌>>=◌, ◌>>◌,
}

module _ {E A B : Type 0} where
  -- An `attempt` that succeeds went on from a result or from an error.
  pub attempt-eq-ok :
      (m : Act E A) (f : A → Act E B) (g : Error → Act E B) (s : List E) (b : B)
      → (attempt m f g s).0 ≡ ok b
      → ((a : A) × ((m s).0 ≡ ok a) × ((f a (m s).1).0 ≡ ok b))
        ⊎ ((e : Error) × ((m s).0 ≡ err e) × ((g e (m s).1).0 ≡ ok b))
  unfolding attempt
  attempt-eq-ok m f g s b h = go (m s).0 refl h
    where
      go :
          (r : Outcome A)
          → (m s).0 ≡ r
          → (resume r f g (m s).1).0 ≡ ok b
          → ((a : A) × ((m s).0 ≡ ok a) × ((f a (m s).1).0 ≡ ok b))
            ⊎ ((e : Error) × ((m s).0 ≡ err e) × ((g e (m s).1).0 ≡ ok b))
      go (ok a) e k = inl (a, e, k)
      go (err x) e k = inr (x, e, k)
      go panicked e k = cc

  pub >>=-eq-ok :
      (m : Act E A) (f : A → Act E B) (s : List E) (b : B)
      → ((m >>= f) s).0 ≡ ok b
      → (a : A) × ((m s).0 ≡ ok a) × ((f a (m s).1).0 ≡ ok b)
  unfolding ◌>>=◌
  >>=-eq-ok m f s b h = elim (attempt-eq-ok m f raise s b h) [
    | inl found ↦ found
    | inr (e, _, k) ↦ cc
  ]

module _ {E A : Type 0} where
  pub >>-eq-ok :
      (m : Act E (Unit {0})) (k : Act E A) (s : List E) (a : A)
      → ((m >> k) s).0 ≡ ok a
      → ((m s).0 ≡ ok tt) × ((k (m s).1).0 ≡ ok a)
  unfolding ◌>>◌
  >>-eq-ok m k s a h = let (_, e, rest) = >>=-eq-ok m (λ _. k) s a h in (e, rest)

  -- An error that is wrapped stays an error.
  pub wrap-eq-ok :
      (text : String) (m : Act E A) (s : List E) (a : A) → (wrap text m s).0 ≡ ok a → (m s).0 ≡ ok a
  unfolding wrap ◌>>=◌
  wrap-eq-ok text m s a h = elim (attempt-eq-ok m pure (λ e. raise (wrapped text e)) s a h) [
    | inl (b, e, k) ↦ e ∙ k
    | inr (e, _, k) ↦ cc
  ]

  pub wrap-log : (text : String) (m : Act E A) (s : List E) → (wrap text m s).1 ≡ (m s).1
  unfolding wrap ◌>>=◌
  wrap-log text m s = ground arith
