-- ===== src/Outcome/Emits.antt =====
-- Which calls an action makes, whatever the outside world answers: one rule for each way to
-- build an action.
use machine_controller.Base.{
  String, ◌≡◌, refl, Bool, true, false, Option, none, some, List, ◌∷◌, if◌then◌else◌,
}
use machine_controller.Outcome.{
  Error, Outcome, ok, err, panicked, Act, pure, raise, panic, lift, call, tell, ask, query, deref,
  attempt, resume, on_option, wrap, ◌>>=◌, ◌>>◌, finally, or_terminal,
}

-- `t` is `s` with more calls, which all pass `P`.
pub data Extends {E : Type 0} (P : E → Bool) (s : List E) : List E → Type 0 where
  same : Extends P s s
  more : {t : List E} (e : E) → P e ≡ true → Extends P s t → Extends P s (e ∷ t)

module _ {E : Type 0} {P : E → Bool} where
  pub Extends-trans : {s t u : List E} → Extends P s t → Extends P t u → Extends P s u
  Extends-trans h same = h
  Extends-trans h (more e p k) = more e p (Extends-trans h k)

-- Every call that `m` makes passes `P`.
pub record Emits {E A : Type 0} (P : E → Bool) (m : Act E A) : Type 0 where
  pub at : (s : List E) → Extends P s (m s).1

module _ {E A : Type 0} {P : E → Bool} where
  pub Emits-pure : (a : A) → Emits P (pure a)
  unfolding pure
  Emits-pure a = record { at = λ s. same }

  pub Emits-raise : (e : Error) → Emits P (raise {A = A} e)
  unfolding raise
  Emits-raise e = record { at = λ s. same }

  pub Emits-panic : Emits P (panic {A = A})
  unfolding panic
  Emits-panic = record { at = λ s. same }

  pub Emits-lift : (r : Outcome A) → Emits P (lift r)
  unfolding lift
  Emits-lift r = record { at = λ s. same }

  pub Emits-call : (e : E) (answer : List E → Outcome A) → P e ≡ true → Emits P (call e answer)
  unfolding call
  Emits-call e answer p = record { at = λ s. more e p same }

  pub Emits-query : (answer : List E → Outcome A) → Emits P (query answer)
  unfolding query
  Emits-query answer = record { at = λ s. same }

  pub Emits-ask : (f : List E → A) → Emits P (ask f)
  unfolding ask
  Emits-ask f = record { at = λ s. same }

  pub Emits-deref : (o : Option A) → Emits P (deref o)
  unfolding deref
  Emits-deref none = record { at = λ s. same }
  Emits-deref (some a) = record { at = λ s. same }

  pub Emits-if :
      (b : Bool) (m n : Act E A)
      → (b ≡ true → Emits P m)
      → (b ≡ false → Emits P n)
      → Emits P (if b then m else n)
  Emits-if true m n km kn = km refl
  Emits-if false m n km kn = kn refl

pub Emits-tell : {E : Type 0} {P : E → Bool} (e : E) → P e ≡ true → Emits P (tell e)
unfolding tell
Emits-tell e p = record { at = λ s. more e p same }

module _ {E A B : Type 0} {P : E → Bool} where
  pub Emits-on_option :
      (o : Option A) (n : Act E B) (f : A → Act E B)
      → (o ≡ none → Emits P n)
      → ((a : A) → o ≡ some a → Emits P (f a))
      → Emits P (on_option o n f)
  unfolding on_option
  Emits-on_option none n f kn kf = kn refl
  Emits-on_option (some a) n f kn kf = kf a refl

  -- The handlers may use what the call answered.
  pub Emits-attempt_eq :
      (m : Act E A) (f : A → Act E B) (g : Error → Act E B)
      → Emits P m
      → ((s : List E) (a : A) → (m s).0 ≡ ok a → Emits P (f a))
      → ((s : List E) (e : Error) → (m s).0 ≡ err e → Emits P (g e))
      → Emits P (attempt m f g)
  unfolding attempt
  Emits-attempt_eq m f g km kf kg = record {
    at = λ s. let (r, s') = m s in Extends-trans (km.at s) (go s r s' refl);
  }
    where
      go :
          (s : List E) (r : Outcome A) (s' : List E)
          → (m s).0 ≡ r
          → Extends P s' (resume r f g s').1
      go s (ok a) s' e = (kf s a e).at s'
      go s (err x) s' e = (kg s x e).at s'
      go s panicked s' e = same

  pub Emits-attempt :
      (m : Act E A) (f : A → Act E B) (g : Error → Act E B)
      → Emits P m
      → ((a : A) → Emits P (f a))
      → ((e : Error) → Emits P (g e))
      → Emits P (attempt m f g)
  Emits-attempt m f g km kf kg = Emits-attempt_eq m f g km (λ s a _. kf a) (λ s e _. kg e)

  pub Emits-bind :
      (m : Act E A) (f : A → Act E B) → Emits P m → ((a : A) → Emits P (f a)) → Emits P (m >>= f)
  unfolding ◌>>=◌
  Emits-bind m f km kf = Emits-attempt m f raise km kf Emits-raise

  -- The rest may use what the first part gave.
  pub Emits-bind_eq :
      (m : Act E A) (f : A → Act E B)
      → Emits P m
      → ((s : List E) (a : A) → (m s).0 ≡ ok a → Emits P (f a))
      → Emits P (m >>= f)
  unfolding ◌>>=◌
  Emits-bind_eq m f km kf = Emits-attempt_eq m f raise km kf (λ _ e _. Emits-raise e)

module _ {E A : Type 0} {P : E → Bool} where
  pub Emits-then : (m : Act E (Unit {0})) (k : Act E A) → Emits P m → Emits P k → Emits P (m >> k)
  unfolding ◌>>◌
  Emits-then m k km kk = Emits-bind m (λ _. k) km (λ _. kk)

  pub Emits-wrap : (text : String) (m : Act E A) → Emits P m → Emits P (wrap text m)
  unfolding wrap
  Emits-wrap text m km = Emits-attempt m pure (λ e. raise _) km Emits-pure (λ e. Emits-raise _)

  pub Emits-finally :
      (last : Act E (Unit {0})) (m : Act E A) → Emits P last → Emits P m → Emits P (finally last m)
  unfolding finally
  Emits-finally last m kl km = record { at = λ s. Extends-trans (km.at s) (kl.at (m s).1) }

  pub Emits-or_terminal :
      (error_text : Error → String) (reason text : String) (m : Act E A)
      → Emits P m
      → Emits P (or_terminal error_text reason text m)
  unfolding or_terminal
  Emits-or_terminal error_text reason text m km =
      Emits-attempt m pure (λ e. raise _) km Emits-pure (λ e. Emits-raise _)

pub ruleset emits_rules = (
  Emits-pure, Emits-raise, Emits-panic, Emits-lift, Emits-ask, Emits-query, Emits-deref, Emits-call,
  Emits-tell, Emits-if, Emits-on_option, Emits-attempt, Emits-bind, Emits-then, Emits-wrap,
  Emits-finally, Emits-or_terminal,
)
