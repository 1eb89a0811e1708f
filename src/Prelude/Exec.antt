-- ===== src/Prelude/Exec.antt =====
-- Methods that mutate an object and may throw: what was written before a throw stays written, so
-- the state comes back beside the exception too. A loop over a collection or a counted loop is a
-- function of its own that recurs over these actions.
pub mod Triple
use mathlib.Core.Path.{◌≡◌, refl}
use mathlib.Core.Bool.{Bool, true, false}
use l4_load_balancer_with_xd.Prelude.Tests.{if◌then◌else◌}

pub data Outcome (X A : Type 0) : Type 0 where
  ok : A → Outcome X A
  thrown : X → Outcome X A

abbrev pub Exec : Type 0 → Type 0 → Type 0 → Type 0
Exec S X A = S → Outcome X A × S

module _ {S X A : Type 0} where
  unfoldable pub pure : A → Exec S X A
  pure a s = (ok a, s)

  unfoldable pub throw : X → Exec S X A
  throw x s = (thrown x, s)

  unfoldable pub gets : (S → A) → Exec S X A
  gets f s = (ok (f s), s)

  -- `try { m } catch (x) { handler x }`
  abbrev recover : Outcome X A → (X → Exec S X A) → Exec S X A
  recover (ok a) handler s = (ok a, s)
  recover (thrown x) handler s = handler x s

  unfoldable pub catch : Exec S X A → (X → Exec S X A) → Exec S X A
  catch m handler s = let (r, s') = m s in recover r handler s'

unfoldable pub modify : {S X : Type 0} → (S → S) → Exec S X (Unit {0})
modify f s = (ok tt, f s)

module _ {S X A B : Type 0} where
  abbrev pub continue : Outcome X A → (A → Exec S X B) → Exec S X B
  continue (ok a) f s = f a s
  continue (thrown x) f s = (thrown x, s)

  infixl 10 ◌>>=◌ ◌>>◌
  unfoldable pub ◌>>=◌ : Exec S X A → (A → Exec S X B) → Exec S X B
  unfolding pure throw gets modify catch
  ◌>>=◌ m f s = let (r, s') = m s in continue r f s'

  abbrev pub ◌>>◌ : Exec S X A → Exec S X B → Exec S X B
  m >> n = m >>= λ _. n

-- `if (b) m;`
abbrev pub when : {S X : Type 0} → Bool → Exec S X (Unit {0}) → Exec S X (Unit {0})
when b m = if b then m else pure tt
