-- ===== src/CloudProvider/Backing.antt =====
-- What the cache of validationwrapper.go may answer.
use machine_controller.Base.{
  String, ◌≡◌, refl, inl, inr, Option, none, some, Option-cases, List, [], ◌∷◌, ◌++◌, arith,
}
use mathlib.Core.Path.{subst}
use machine_controller.Outcome.{Error, ok, ◌>>=◌, ◌>>◌, wrap}
use machine_controller.Kube.{MachineSpec}
use machine_controller.CloudProvider.Caching.{
  Consultation, cache_set, provider_validate, result, Wrapped, IsCache, get_id, get, set,
  validate_and_set, validate,
}

module _ (w : Wrapped) where
  -- `v` is what the provider answered when it was asked, after `t`, about a spec with the key `id`.
  abbrev pub IsAnswer : String → Option Error → List Consultation → Type 0
  IsAnswer id v t = (spec : MachineSpec) × (get_id w spec ≡ ok id) × (w.validated t spec ≡ v)

  -- Every value that was set was the answer of the provider to the question right before.
  abbrev pub IsBacked : List Consultation → Type 0
  IsBacked [] = Unit
  IsBacked (provider_validate _ ∷ s) = IsBacked s
  IsBacked (cache_set id v ∷ s) =
      ((spec : MachineSpec) × (t : List Consultation) × (s ≡ provider_validate spec ∷ t)
        × (get_id w spec ≡ ok id)
        × (w.validated t spec ≡ v))
      × IsBacked s

  backing :
      (l r : List Consultation) (id : String) (v : Option Error)
      → IsBacked (l ++ (cache_set id v ∷ r))
      → (t : List Consultation) × IsAnswer id v t
  backing [] r id v ((spec, t, _, key, answer), _) = (t, (spec, key, answer))
  backing (provider_validate _ ∷ l) r id v h = backing l r id v h
  backing (cache_set _ _ ∷ l) r id v (_, h) = backing l r id v h

  validate-hit :
      (spec : MachineSpec) (id : String) (s : List Consultation) (v : Option Error)
      → get_id w spec ≡ ok id
      → w.entry s id ≡ some v
      → validate w spec s ≡ (result v, s)
  unfolding validate get ◌>>=◌ wrap
  validate-hit spec id s v key hit = ground (arith, key, hit)

  validate-miss :
      (spec : MachineSpec) (id : String) (s : List Consultation)
      → get_id w spec ≡ ok id
      → w.entry s id ≡ none
      → let v = w.validated s spec in
        validate w spec s ≡ (result v, cache_set id v ∷ provider_validate spec ∷ s)
  unfolding validate validate_and_set get set ◌>>=◌ wrap ◌>>◌
  validate-miss spec id s key miss = rw (key, miss) refl

  -- The validation of a spec whose key is `id` keeps the cache backed by the provider, and its
  -- result is what the provider answered, now or before, about a spec with the same key.
  pub validate-IsBacked :
      IsCache w
      → (spec : MachineSpec) (id : String) (s : List Consultation) → get_id w spec ≡ ok id
      → IsBacked s
      → IsBacked (validate w spec s).1
        × ((t : List Consultation) × (v : Option Error) × IsAnswer id v t
            × ((validate w spec s).0 ≡ result v))
  validate-IsBacked l spec id s key backed = elim (Option-cases (w.entry s id)) [
    | inl miss ↦
        rw (validate-miss spec id s key miss)
          (((spec, s, refl, key, refl), backed), (s, w.validated s spec, (spec, key, refl), refl))
    | inr (v, hit) ↦
        let (l, r, set_before) = l.entry_was_set s id v hit in
        let (t, answer) = backing l r id v (subst IsBacked set_before backed) in
        rw (validate-hit spec id s v key hit) (backed, (t, v, answer, refl))
  ]
