-- ===== src/Prelude/Exec/Triple.antt =====
-- What holds after an action that is started where `P` holds: `Q` of the result where it returns,
-- and `E` of the exception where it throws. One rule for each way to build an action.
use mathlib.Core.Path.{◌≡◌, refl, ap}
use mathlib.Core.Bool.{Bool, true, false}
use l4_load_balancer_with_xd.Prelude.Tests.{if◌then◌else◌}
use l4_load_balancer_with_xd.Prelude.Exec.{
  Outcome, ok, thrown, Exec, pure, throw, gets, modify, catch, recover, continue, ◌>>=◌,
}

abbrev pub Post : {S X A : Type 0} → (A → S → Type 0) → (X → S → Type 0) → Outcome X A × S → Type 0
Post Q E (ok a, s) = Q a s
Post Q E (thrown x, s) = E x s

pub record Triple {S X A : Type 0} (P : S → Type 0) (m : Exec S X A) (Q : A → S → Type 0)
    (E : X → S → Type 0) : Type 0 where
  pub at : (s : S) → P s → Post Q E (m s)

module _ {S X A : Type 0} {P : S → Type 0} {Q : A → S → Type 0} {E : X → S → Type 0} where
  pub Triple-pure : (a : A) → ((s : S) → P s → Q a s) → Triple P (pure a) Q E
  unfolding pure
  Triple-pure a h = record { at = h }

  pub Triple-throw : (x : X) → ((s : S) → P s → E x s) → Triple P (throw x) Q E
  unfolding throw
  Triple-throw x h = record { at = h }

  pub Triple-gets : (f : S → A) → ((s : S) → P s → Q (f s) s) → Triple P (gets f) Q E
  unfolding gets
  Triple-gets f h = record { at = h }

  pub Triple-if :
      (b : Bool) {m n : Exec S X A}
      → (b ≡ true → Triple P m Q E)
      → (b ≡ false → Triple P n Q E)
      → Triple P (if b then m else n) Q E
  Triple-if true hm hn = hm refl
  Triple-if false hm hn = hn refl

  pub Triple-weaken :
      {P' : S → Type 0} {Q' : A → S → Type 0} {E' : X → S → Type 0} {m : Exec S X A}
      → Triple P' m Q' E'
      → ((s : S) → P s → P' s)
      → ((a : A) (s : S) → Q' a s → Q a s)
      → ((x : X) (s : S) → E' x s → E x s)
      → Triple P m Q E
  Triple-weaken {Q'} {E'} {m} t hp hq he = record { at = λ s p. go (m s) (t.at s (hp s p)) }
    where
      go : (r : Outcome X A × S) → Post Q' E' r → Post Q E r
      go (ok a, s) q = hq a s q
      go (thrown x, s) e = he x s e

  -- A part of what holds at the start that is not about the state.
  pub Triple-assume :
      {F : Type 0} {m : Exec S X A} → (F → Triple P m Q E) → Triple (λ s. P s × F) m Q E
  Triple-assume h = record { at = λ s (p, f). (h f).at s p }

  -- Two facts about one action.
  pub Triple-both :
      {P' : S → Type 0} {Q' : A → S → Type 0} {E' : X → S → Type 0} {m : Exec S X A}
      → Triple P m Q E
      → Triple P' m Q' E'
      → Triple (λ s. P s × P' s) m (λ a s. Q a s × Q' a s) (λ x s. E x s × E' x s)
  Triple-both {Q'} {E'} {m} t u = record { at = λ s (p, q). go (m s) (t.at s p) (u.at s q) }
    where
      go :
          (r : Outcome X A × S)
          → Post Q E r
          → Post Q' E' r
          → Post (λ a s. Q a s × Q' a s) (λ x s. E x s × E' x s) r
      go (ok a, s) p q = (p, q)
      go (thrown x, s) p q = (p, q)

  pub Triple-catch :
      {E' : X → S → Type 0} {m : Exec S X A} {handler : X → Exec S X A}
      → Triple P m Q E'
      → ((x : X) → Triple (E' x) (handler x) Q E)
      → Triple P (catch m handler) Q E
  unfolding catch
  Triple-catch {E'} {m} {handler} t h = record { at = λ s p. go (m s) (t.at s p) }
    where
      go : (r : Outcome X A × S) → Post Q E' r → Post Q E (recover r.0 handler r.1)
      go (ok a, s) q = q
      go (thrown x, s) e = (h x).at s e

pub Triple-modify :
    {S X : Type 0} {P : S → Type 0} {Q : Unit {0} → S → Type 0} {E : X → S → Type 0} (f : S → S)
    → ((s : S) → P s → Q tt (f s))
    → Triple P (modify {X = X} f) Q E
unfolding modify
Triple-modify f h = record { at = h }

module _ {S X A B : Type 0} {P : S → Type 0} {Q : B → S → Type 0} {E : X → S → Type 0} where
  pub Triple-bind :
      {M : A → S → Type 0} {m : Exec S X A} {f : A → Exec S X B}
      → Triple P m M E
      → ((a : A) → Triple (M a) (f a) Q E)
      → Triple P (m >>= f) Q E
  unfolding ◌>>=◌
  Triple-bind {M} {m} {f} t h = record { at = λ s p. go (m s) (t.at s p) }
    where
      go : (r : Outcome X A × S) → Post M E r → Post Q E (continue r.0 f r.1)
      go (ok a, s) q = (h a).at s q
      go (thrown x, s) e = e

module _ {S X A B : Type 0} where
  -- The first of two actions is done, and the second goes on from where it ended.
  pub bind-runs :
      (m : Exec S X A) (f : A → Exec S X B) {s t : S} {a : A}
      → m s ≡ (ok a, t)
      → (m >>= f) s ≡ f a t
  unfolding ◌>>=◌
  bind-runs m f e = ap (λ (p : Outcome X A × S). continue p.0 f p.1) e

-- What holds of the state alone holds wherever the action ends.
module _ {S X A : Type 0} (P : S → Type 0) where
  pub either_way : (r : Outcome X A × S) → P r.1 → Post (λ _. P) (λ _. P) r
  either_way (ok a, s) p = p
  either_way (thrown x, s) p = p

  pub at_the_end : (r : Outcome X A × S) → Post (λ _. P) (λ _. P) r → P r.1
  at_the_end (ok a, s) p = p
  at_the_end (thrown x, s) p = p
