-- ===== src/Outcome/Runs.antt =====
-- A program logic for actions: what holds of the calls made when an action starts, and when it gives
-- a value, fails or panics.
use machine_controller.Base.{
  String, ◌≡◌, refl, Bool, true, false, Option, none, some, List, ◌∷◌, if◌then◌else◌,
}
use machine_controller.Outcome.{
  Error, wrapped, Outcome, ok, err, panicked, Act, pure, raise, call, deref, attempt, resume,
  on_option, wrap, ◌>>=◌, ◌>>◌, finally,
}
use machine_controller.Outcome.Emits.{Extends, same, more, Emits}
use machine_controller.Outcome.Yields.{Yields}

-- `Q` of a value, `F` of an error, `K` of a panic.
abbrev pub Holds :
    {E A : Type 0}
    → (List E → Type 0)
    → (A → List E → Type 0)
    → (Error → List E → Type 0)
    → Outcome A
    → List E
    → Type 0
Holds K Q F (ok a) s = Q a s
Holds K Q F (err e) s = F e s
Holds K Q F panicked s = K s

pub record Runs {E A : Type 0} (K I : List E → Type 0) (Q : A → List E → Type 0)
    (F : Error → List E → Type 0) (m : Act E A) : Type 0 where
  pub at : (s : List E) → I s → Holds K Q F (m s).0 (m s).1

module _ {E A : Type 0} {K I : List E → Type 0} {Q : A → List E → Type 0}
    {F : Error → List E → Type 0} where
  pub Runs-pure : (a : A) → ((s : List E) → I s → Q a s) → Runs K I Q F (pure a)
  unfolding pure
  Runs-pure a h = record { at = h }

  pub Runs-raise : (e : Error) → ((s : List E) → I s → F e s) → Runs K I Q F (raise e)
  unfolding raise
  Runs-raise e h = record { at = h }

  pub Runs-call :
      (e : E) (answer : List E → Outcome A)
      → ((s : List E) (r : Outcome A) → I s → answer s ≡ r → Holds K Q F r (e ∷ s))
      → Runs K I Q F (call e answer)
  unfolding call
  Runs-call e answer h = record { at = λ s i. h s (answer s) i refl }

  pub Runs-if :
      (b : Bool) (m n : Act E A)
      → (b ≡ true → Runs K I Q F m)
      → (b ≡ false → Runs K I Q F n)
      → Runs K I Q F (if b then m else n)
  Runs-if true m n km kn = km refl
  Runs-if false m n km kn = kn refl

  pub Runs-deref :
      (o : Option A)
      → ((s : List E) → I s → K s)
      → ((a : A) (s : List E) → o ≡ some a → I s → Q a s)
      → Runs K I Q F (deref o)
  unfolding deref
  Runs-deref none hn hf = record { at = hn }
  Runs-deref (some a) hn hf = record { at = λ s. hf a s refl }

  -- The value may be told more of.
  pub Runs-Yields :
      {R : A → Type 0} (m : Act E A)
      → Runs K I Q F m
      → Yields R m
      → Runs K I (λ a s. Q a s × R a) F m
  Runs-Yields {R} m h y = record { at = λ s i. go s (m s).0 refl (h.at s i) }
    where
      go :
          (s : List E) (r : Outcome A)
          → (m s).0 ≡ r
          → Holds K Q F r (m s).1
          → Holds K (λ a t. Q a t × R a) F r (m s).1
      go s (ok a) e q = (q, y.at s a e)
      go s (err x) e q = q
      go s panicked e q = q

  pub Runs-mono :
      {K' I' : List E → Type 0} {Q' : A → List E → Type 0} {F' : Error → List E → Type 0}
      (m : Act E A)
      → ((s : List E) → K s → K' s)
      → ((s : List E) → I' s → I s)
      → ((a : A) (s : List E) → Q a s → Q' a s)
      → ((e : Error) (s : List E) → F e s → F' e s)
      → Runs K I Q F m
      → Runs K' I' Q' F' m
  Runs-mono {K'} {I'} {Q'} {F'} m hk hi hq hf h = record {
    at = λ s i. go (m s).0 (m s).1 (h.at s (hi s i));
  }
    where
      go : (r : Outcome A) (t : List E) → Holds K Q F r t → Holds K' Q' F' r t
      go (ok a) t q = hq a t q
      go (err e) t q = hf e t q
      go panicked t q = hk t q

module _ {E A B : Type 0} {K I : List E → Type 0} {Q : A → List E → Type 0}
    {R : B → List E → Type 0} {F G : Error → List E → Type 0} where
  pub Runs-attempt :
      (m : Act E A) (f : A → Act E B) (g : Error → Act E B)
      → Runs K I Q F m
      → ((a : A) → Runs K (Q a) R G (f a))
      → ((e : Error) → Runs K (F e) R G (g e))
      → Runs K I R G (attempt m f g)
  unfolding attempt
  Runs-attempt m f g km kf kg = record { at = λ s i. go (m s).0 (m s).1 (km.at s i) }
    where
      go :
          (r : Outcome A) (t : List E)
          → Holds K Q F r t
          → Holds K R G (resume r f g t).0 (resume r f g t).1
      go (ok a) t q = (kf a).at t q
      go (err e) t q = (kg e).at t q
      go panicked t q = q

module _ {E A B : Type 0} {K I : List E → Type 0} {Q : A → List E → Type 0}
    {R : B → List E → Type 0} {F : Error → List E → Type 0} where
  pub Runs-bind :
      (m : Act E A) (f : A → Act E B)
      → Runs K I Q F m
      → ((a : A) → Runs K (Q a) R F (f a))
      → Runs K I R F (m >>= f)
  unfolding ◌>>=◌
  Runs-bind m f km kf = Runs-attempt m f raise km kf (λ e. Runs-raise e (λ s h. h))

module _ {E A B : Type 0} {K I : List E → Type 0} {R : B → List E → Type 0}
    {F : Error → List E → Type 0} where
  pub Runs-on_option :
      (o : Option A) (n : Act E B) (f : A → Act E B)
      → (o ≡ none → Runs K I R F n)
      → ((a : A) → o ≡ some a → Runs K I R F (f a))
      → Runs K I R F (on_option o n f)
  unfolding on_option
  Runs-on_option none n f kn kf = kn refl
  Runs-on_option (some a) n f kn kf = kf a refl

module _ {E A : Type 0} {K I J : List E → Type 0} {Q : A → List E → Type 0}
    {F : Error → List E → Type 0} where
  pub Runs-then :
      (m : Act E (Unit {0})) (k : Act E A)
      → Runs K I (λ _. J) F m
      → Runs K J Q F k
      → Runs K I Q F (m >> k)
  unfolding ◌>>◌
  Runs-then m k km kk = Runs-bind m (λ _. k) km (λ _. kk)

module _ {E A : Type 0} {K I : List E → Type 0} {Q : A → List E → Type 0}
    {F G : Error → List E → Type 0} where
  pub Runs-wrap :
      (text : String) (m : Act E A)
      → ((e : Error) (s : List E) → F e s → G (wrapped text e) s)
      → Runs K I Q F m
      → Runs K I Q G (wrap text m)
  unfolding wrap
  Runs-wrap text m h km =
      Runs-attempt m pure (λ e. raise (wrapped text e)) km (λ a. Runs-pure a (λ s q. q))
        (λ e. Runs-raise (wrapped text e) (h e))

-- What holds however an action ends.
pub Holds-always :
    {E A : Type 0} (G : List E → Type 0) (r : Outcome A) (s : List E)
    → Holds G (λ _. G) (λ _. G) r s
    → G s
Holds-always G (ok _) s h = h
Holds-always G (err _) s h = h
Holds-always G panicked s h = h

always-Holds :
    {E A : Type 0} (G : List E → Type 0) (r : Outcome A) (s : List E)
    → G s
    → Holds G (λ _. G) (λ _. G) r s
always-Holds G (ok _) s g = g
always-Holds G (err _) s g = g
always-Holds G panicked s g = g

-- However `m` ends, its calls come on top of those before it, and those of `last` on top of these.
pub Runs-finally :
    {E A : Type 0} {I G : List E → Type 0} (last : Act E (Unit {0})) (m : Act E A)
    → Emits (λ _. true) m
    → ((s t : List E) → I s → Extends (λ _. true) s t → G (last t).1)
    → Runs G I (λ _. G) (λ _. G) (finally last m)
unfolding finally
Runs-finally {E} {A} {I} {G} last m h k = record {
  at = λ s i. always-Holds G (m s).0 (last (m s).1).1 (k s (m s).1 i (h.at s));
}

-- What every call of a kind keeps is kept by an action that makes no other calls.
pub Extends-keeps :
    {E : Type 0} {P : E → Bool} {I : List E → Type 0}
    → ((e : E) (s : List E) → P e ≡ true → I s → I (e ∷ s))
    → {s t : List E} → Extends P s t
    → I s
    → I t
Extends-keeps step same i = i
Extends-keeps step (more e p x) i = step e _ p (Extends-keeps step x i)

module _ {E A : Type 0} {P : E → Bool} {I : List E → Type 0} where
  pub Runs-Emits :
      (m : Act E A)
      → ((e : E) (s : List E) → P e ≡ true → I s → I (e ∷ s))
      → Emits P m
      → Runs I I (λ _. I) (λ _. I) m
  Runs-Emits m step h = record { at = λ s i. go (m s).0 (m s).1 (Extends-keeps step (h.at s) i) }
    where
      go : (r : Outcome A) (t : List E) → I t → Holds I (λ (_ : A). I) (λ _. I) r t
      go (ok a) t i = i
      go (err e) t i = i
      go panicked t i = i

-- What is known from the start, whatever the calls.
pub Runs-given :
    {E A P : Type 0} {K I : List E → Type 0} {Q : A → List E → Type 0} {F : Error → List E → Type 0}
    (m : Act E A)
    → (P → Runs K I Q F m)
    → Runs K (λ s. I s × P) Q F m
Runs-given m h = record { at = λ s (i, p). (h p).at s i }
