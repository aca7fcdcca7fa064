-- ===== src/Outcome/Yields.antt =====
-- What holds of the value that an action gives where it gives one: one rule for each way to build
-- an action.
use mathlib.Core.Path.{subst}
use machine_controller.Base.{
  String, ◌≡◌, refl, Bool, true, false, inl, inr, Option, none, some, List, if◌then◌else◌, arith,
}
use machine_controller.Outcome.{
  Error, Outcome, ok, Act, pure, raise, call, deref, attempt, on_option, finally, wrap, ◌>>=◌, ◌>>◌,
}
use machine_controller.Outcome.Emits.{Emits, Emits-bind_eq}
use machine_controller.Outcome.Inversion.{attempt-eq-ok, wrap-eq-ok}

pub record Yields {E A : Type 0} (Q : A → Type 0) (m : Act E A) : Type 0 where
  pub at : (s : List E) (a : A) → (m s).0 ≡ ok a → Q a

-- `a` where the outcome is none
abbrev value_or : {A : Type 0} → A → Outcome A → A
value_or a (ok b) = b
value_or a _ = a

pub ok-inj : {A : Type 0} {a b : A} → ok a ≡ ok b → a ≡ b
ok-inj {A} {a} p i = value_or a (p i)

module _ {E A : Type 0} {Q : A → Type 0} where
  pub Yields-pure : (a : A) → Q a → Yields {E = E} Q (pure a)
  unfolding pure
  Yields-pure a q = record { at = λ s b e. subst Q (ok-inj e) q }

  pub Yields-raise : (e : Error) → Yields {E = E} Q (raise e)
  unfolding raise
  Yields-raise e = record { at = λ s b k. absurd (ground (arith, k)) }

  pub Yields-deref : (o : Option A) → ((a : A) → o ≡ some a → Q a) → Yields {E = E} Q (deref o)
  unfolding deref
  Yields-deref none h = record { at = λ s b k. absurd (ground (arith, k)) }
  Yields-deref (some a) h = record { at = λ s b k. subst Q (ok-inj k) (h a refl) }

  pub Yields-call :
      (e : E) (answer : List E → Outcome A)
      → ((s : List E) (a : A) → answer s ≡ ok a → Q a)
      → Yields Q (call e answer)
  unfolding call
  Yields-call e answer h = record { at = λ s a k. h s a k }

  pub Yields-if :
      (b : Bool) (m n : Act E A)
      → (b ≡ true → Yields Q m)
      → (b ≡ false → Yields Q n)
      → Yields Q (if b then m else n)
  Yields-if true m n km kn = km refl
  Yields-if false m n km kn = kn refl

  pub Yields-finally :
      (last : Act E (Unit {0})) (m : Act E A) → Yields Q m → Yields Q (finally last m)
  unfolding finally
  Yields-finally last m k = record { at = λ s a e. k.at s a e }

  pub Yields-wrap : (text : String) (m : Act E A) → Yields Q m → Yields Q (wrap text m)
  Yields-wrap text m k = record { at = λ s a e. k.at s a (wrap-eq-ok text m s a e) }

module _ {E A B : Type 0} {Q : B → Type 0} where
  pub Yields-on_option :
      (o : Option A) (n : Act E B) (f : A → Act E B)
      → (o ≡ none → Yields Q n)
      → ((a : A) → o ≡ some a → Yields Q (f a))
      → Yields Q (on_option o n f)
  unfolding on_option
  Yields-on_option none n f kn kf = kn refl
  Yields-on_option (some a) n f kn kf = kf a refl

  pub Yields-attempt :
      (m : Act E A) (f : A → Act E B) (g : Error → Act E B)
      → ((a : A) → Yields Q (f a))
      → ((e : Error) → Yields Q (g e))
      → Yields Q (attempt m f g)
  Yields-attempt m f g kf kg = record {
    at = λ s b e. elim (attempt-eq-ok m f g s b e) [
      | inl (a, _, k) ↦ (kf a).at _ b k
      | inr (x, _, k) ↦ (kg x).at _ b k
    ];
  }

  pub Yields-bind :
      (m : Act E A) (f : A → Act E B) → ((a : A) → Yields Q (f a)) → Yields Q (m >>= f)
  unfolding ◌>>=◌
  Yields-bind m f kf = Yields-attempt m f raise kf Yields-raise

  -- The rest may use what holds of the value before it.
  pub Yields-attempt-Yields :
      {R : A → Type 0} (m : Act E A) (f : A → Act E B) (g : Error → Act E B)
      → Yields R m
      → ((a : A) → R a → Yields Q (f a))
      → ((e : Error) → Yields Q (g e))
      → Yields Q (attempt m f g)
  Yields-attempt-Yields m f g r kf kg = record {
    at = λ s b e. elim (attempt-eq-ok m f g s b e) [
      | inl (a, h, k) ↦ (kf a (r.at s a h)).at _ b k
      | inr (x, _, k) ↦ (kg x).at _ b k
    ];
  }

  pub Yields-bind-Yields :
      {R : A → Type 0} (m : Act E A) (f : A → Act E B)
      → Yields R m
      → ((a : A) → R a → Yields Q (f a))
      → Yields Q (m >>= f)
  unfolding ◌>>=◌
  Yields-bind-Yields m f r kf = Yields-attempt-Yields m f raise r kf Yields-raise

module _ {E A : Type 0} {Q : A → Type 0} where
  pub Yields-then : (m : Act E (Unit {0})) (k : Act E A) → Yields Q k → Yields Q (m >> k)
  unfolding ◌>>◌
  Yields-then m k kk = Yields-bind m (λ _. k) (λ _. kk)

-- The rest of an action may use what holds of the value before it.
pub Emits-bind-Yields :
    {E A B : Type 0} {P : E → Bool} {Q : A → Type 0} (m : Act E A) (f : A → Act E B)
    → Emits P m
    → Yields Q m
    → ((a : A) → Q a → Emits P (f a))
    → Emits P (m >>= f)
Emits-bind-Yields m f km q kf = Emits-bind_eq m f km (λ s a e. kf a (q.at s a e))

pub ruleset yields_rules = (
  Yields-pure, Yields-raise, Yields-if, Yields-finally, Yields-on_option, Yields-attempt,
  Yields-bind, Yields-then,
)
