-- ===== src/Providers/Aws/Newest.antt =====
-- pkg/cloudprovider/provider/aws/provider.go: which image getDefaultAMIID takes.
use mathlib.Core.Path.{subst}
use native.Mathlib.Nat.{le_trans}
use mathlib.Core.Option.{some_inj}
use machine_controller.Base.{
  ltb, if◌then◌else◌, Option-cases, ℕ, ◌≤◌, String, ◌≡◌, refl, sym, ◌∙◌, ◌⊎◌, inl, inr, Bool, true,
  false, Option, none, some, List, [], ◌∷◌, arith,
}
use machine_controller.Outcome.Yields.{Yields, Yields-deref, yields_rules}
use machine_controller.Providers.Aws.{Image, Cloud}
use machine_controller.Providers.Aws.Images.{later_of, newest, newest_of}

abbrev pub IsOneOf : Image → List Image → Type 0
IsOneOf x [] = ⊥
IsOneOf x (image ∷ images) = (x ≡ image) ⊎ IsOneOf x images

module _ (c : Cloud) where
  -- The creation time of an image; the zero time for one without a date.
  abbrev pub time_of : Image → ℕ
  time_of image = elim image.creation_date [ none ↦ 0 | some date ↦ c.parse_time date ]

  pub record IsNewest (x : Image) (images : List Image) : Type 0 where
    pub is_one_of : IsOneOf x images
    pub is_latest : (v : Image) → IsOneOf v images → time_of v ≤ time_of x

  abbrev IsLater : Image → Image → Image → Type 0
  IsLater image v x =
      (time_of image ≤ time_of x) × (time_of v ≤ time_of x) × ((x ≡ image) ⊎ (x ≡ v))

  later_of-IsLater : (image v x : Image) → later_of c image v ≡ some x → IsLater image v x
  unfolding later_of
  later_of-IsLater image v x h = go image.creation_date v.creation_date refl refl h
    where
      picked :
          (a b : String) (test : Bool)
          → image.creation_date ≡ some a
          → v.creation_date ≡ some b
          → ltb (c.parse_time a) (c.parse_time b) ≡ test
          → some (if test then v else image) ≡ some x
          → IsLater image v x
      picked a b true e k w h =
          subst (λ y. IsLater image v y) (some_inj.0 h)
            (ground (arith, e, k, w), ground arith, inr refl)
      picked a b false e k w h =
          subst (λ y. IsLater image v y) (some_inj.0 h)
            (ground arith, ground (arith, e, k, w), inl refl)

      go :
          (a b : Option String)
          → image.creation_date ≡ a
          → v.creation_date ≡ b
          → elim a [
            | none ↦ none
            | some itime ↦ elim b [
              | none ↦ none
              | some vtime ↦
                  some (if ltb (c.parse_time itime) (c.parse_time vtime) then v else image)
            ]
          ]
            ≡ some x
          → IsLater image v x
      go none b e k h = absurd (ground (arith, h))
      go (some a) none e k h = absurd (ground (arith, h))
      go (some a) (some b) e k h = picked a b (ltb (c.parse_time a) (c.parse_time b)) e k refl h

  -- What the loop has found so far, and what it finds.
  abbrev IsFound : Image → List Image → Image → Type 0
  IsFound image vs x =
      (time_of image ≤ time_of x)
      × ((v : Image) → IsOneOf v vs → time_of v ≤ time_of x)
      × ((x ≡ image) ⊎ IsOneOf x vs)

  IsFound-step :
      (image v y x : Image) (vs : List Image)
      → IsLater image v y
      → IsFound y vs x
      → IsFound image (v ∷ vs) x
  IsFound-step image v y x vs (image_y, v_y, which) (y_x, below, one) = (
    le_trans image_y y_x,
    λ w k. elim k [
      | inl e ↦ subst (λ z. time_of z ≤ time_of x) (sym e) (le_trans v_y y_x)
      | inr k ↦ below w k
    ],
    elim one [
      | inr k ↦ inr (inr k)
      | inl e ↦ elim which [ inl k ↦ inl (e ∙ k) | inr k ↦ inr (inl (e ∙ k)) ]
    ],
  )

  newest-IsFound :
      (image : Image) (vs : List Image) (x : Image)
      → newest c image vs ≡ some x
      → IsFound image vs x
  unfolding newest
  newest-IsFound image [] x h =
      subst (λ y. IsFound image [] y) (some_inj.0 h) (ground arith, (λ v k. absurd k), inl refl)
  newest-IsFound image (v ∷ vs) x h = elim (Option-cases (later_of c image v)) [
    | inl nothing ↦ absurd (ground (arith, h, nothing))
    | inr (y, picked) ↦
        IsFound-step image v y x vs (later_of-IsLater image v y picked)
          (newest-IsFound y vs x (ground (arith, h, picked)))
  ]

  first_twice :
      (image x : Image) (images : List Image)
      → IsFound image (image ∷ images) x
      → IsNewest x (image ∷ images)
  first_twice image x images (_, below, one) = record {
    is_one_of = elim one [ inl e ↦ inl e | inr k ↦ k ];
    is_latest = below;
  }

  -- The image that is taken is one of those that the API described, and none of them is newer.
  pub newest_of-IsNewest :
      (images : List Image) → Yields (λ x. IsNewest x images) (newest_of c images)
  unfolding newest_of
  newest_of-IsNewest [] = search yields_rules
  newest_of-IsNewest (image ∷ images) =
      Yields-deref _ (λ x h. first_twice image x images (newest-IsFound image (image ∷ images) x h))
