-- ===== src/Outcome.antt =====
-- Go's errors and results. A function that returns an error and calls the outside world is an
-- action: it takes the calls made before it, the latest first, and adds its own.
pub mod Emits
pub mod Inversion
pub mod Yields
pub mod Runs
pub mod Errors
pub use Errors.*
use machine_controller.Base.{String, concat, Option, none, some, List, ◌∷◌}

pub data Outcome (A : Type 0) : Type 0 where
  ok : A → Outcome A
  err : Error → Outcome A
  panicked : Outcome A

abbrev pub Act : Type 0 → Type 0 → Type 0
Act E A = List E → Outcome A × List E

module _ {E A : Type 0} where
  unfoldable pub pure : A → Act E A
  pure a s = (ok a, s)

  unfoldable pub raise : Error → Act E A
  raise e s = (err e, s)

  unfoldable pub panic : Act E A
  panic s = (panicked, s)

  unfoldable pub lift : Outcome A → Act E A
  lift r s = (r, s)

  -- A call of the outside world: what it answers may depend on all that was done before.
  unfoldable pub call : E → (List E → Outcome A) → Act E A
  call e answer s = (answer s, e ∷ s)

  -- A read that is not recorded.
  unfoldable pub query : (List E → Outcome A) → Act E A
  query answer s = (answer s, s)

  -- A read of a local or of a clock.
  unfoldable pub ask : (List E → A) → Act E A
  ask f s = (ok (f s), s)

  -- A pointer that is followed.
  unfoldable pub deref : Option A → Act E A
  deref none s = (panicked, s)
  deref (some a) s = (ok a, s)

-- A call with no answer to look at.
unfoldable pub tell : {E : Type 0} → E → Act E (Unit {0})
tell e s = (ok tt, e ∷ s)

module _ {E A B : Type 0} where
  abbrev pub resume : Outcome A → (A → Act E B) → (Error → Act E B) → Act E B
  resume (ok a) f g s = f a s
  resume (err e) f g s = g e s
  resume panicked f g s = (panicked, s)

  -- `x, err := m; if err != nil { g } ; f`
  unfoldable pub attempt : Act E A → (A → Act E B) → (Error → Act E B) → Act E B
  attempt m f g s = let (r, s') = m s in resume r f g s'

  unfoldable pub on_option : Option A → Act E B → (A → Act E B) → Act E B
  on_option none n f = n
  on_option (some a) n f = f a

  infixl 10 ◌>>=◌
  -- To unfold it is to unfold all of the above.
  unfoldable pub ◌>>=◌ : Act E A → (A → Act E B) → Act E B
  unfolding pure raise panic lift call query ask deref tell attempt on_option
  m >>= f = attempt m f raise

module _ {E A : Type 0} where
  infixl 10 ◌>>◌
  unfoldable pub ◌>>◌ : Act E (Unit {0}) → Act E A → Act E A
  unfolding ◌>>=◌
  m >> k = m >>= λ _. k

  -- `if err != nil { return fmt.Errorf("text: %v", err) }`
  unfoldable pub wrap : String → Act E A → Act E A
  unfolding attempt pure raise
  wrap text m = attempt m pure (λ e. raise (wrapped text e))

  -- `defer`: `last` runs after `m`, whatever `m` gives, and its own result is dropped.
  unfoldable pub finally : Act E (Unit {0}) → Act E A → Act E A
  finally last m s = let (r, s') = m s in (r, (last s').1)

  -- `if err != nil { return TerminalError{reason, text + err} }`
  unfoldable pub or_terminal : (Error → String) → String → String → Act E A → Act E A
  unfolding ◌>>=◌
  or_terminal error_text reason text m =
      attempt m pure (λ e. raise (terminal_error reason (concat text (error_text e))))
