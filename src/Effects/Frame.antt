-- ===== src/Effects/Frame.antt =====
-- What a handler leaves of the tables, whether it returns or throws: a relation that holds of tables and
-- themselves and follows from step to step.
use sync_bridge_platform.Base.{
  Bool, true, false, Option, none, some, ◌≡◌, refl, sym, Result, ok, err, ok-injective,
}
use mathlib.Core.Path.{subst}
use sync_bridge_platform.Database.{World}
use sync_bridge_platform.Effects.{
  Error, M, pure, lift, or_throw, gets, throw_if, continue, try_or, try_catch, ◌>>=◌, ◌>>◌,
}

pub record Frame (N : Type 0) : Type 1 where
  pub Rel : World N → World N → Type 0
  pub self : (w : World N) → Rel w w
  pub trans : {u v w : World N} → Rel u v → Rel v w → Rel u w

module _ {N : Type 0} (frame : Frame N) where
  abbrev pub Keeps : {A : Type 0} → M N A → Type 0
  Keeps m = (w : World N) → frame.Rel w (m w).1

  pub Keeps-continue :
      {A B : Type 0} (r : Result Error A) (f : A → M N B) {w v : World N}
      → frame.Rel w v
      → ((a : A) → frame.Rel v (f a v).1)
      → frame.Rel w (continue r f v).1
  Keeps-continue (ok a) f first next = frame.trans first (next a)
  Keeps-continue (err e) f first next = first

  pub Keeps-bind :
      {A B : Type 0} (m : M N A) (f : A → M N B)
      → Keeps m
      → ((a : A) → Keeps (f a))
      → Keeps (m >>= f)
  Keeps-bind m f first next w = Keeps-continue (m w).0 f (first w) (λ a. next a (m w).1)

  pub Keeps-then :
      {B : Type 0} (m : M N (Unit {0})) (k : M N B) → Keeps m → Keeps k → Keeps (m >> k)
  Keeps-then m k first next = Keeps-bind m (λ _. k) first (λ _. next)

  pub Keeps-try :
      {A B : Type 0} (m : M N A) (f : A → M N B) (h : Error → M N B)
      → Keeps m
      → ((a : A) → Keeps (f a))
      → ((e : Error) → Keeps (h e))
      → Keeps (try_catch m f h)
  Keeps-try m f h first next caught w = go (m w).0 (first w)
    where
      go : {v : World N} (r : Result Error _) → frame.Rel w v → frame.Rel w (try_or r f h v).1
      go (ok a) s = frame.trans s (next a _)
      go (err e) s = frame.trans s (caught e _)

  -- A handler that writes nothing.
  pub kept_by_reads : {A : Type 0} (m : M N A) → ((w : World N) → (m w).1 ≡ w) → Keeps m
  kept_by_reads m reads w = subst (frame.Rel w) (sym (reads w)) (frame.self w)

  pub Keeps-pure : {A : Type 0} (a : A) → Keeps (pure a)
  Keeps-pure a w = frame.self w

  pub Keeps-lift : {A : Type 0} (r : Result Error A) → Keeps (lift r)
  Keeps-lift r w = frame.self w

  pub Keeps-gets : {A : Type 0} (f : World N → A) → Keeps (gets f)
  Keeps-gets f w = frame.self w

  pub Keeps-or_throw : {A : Type 0} (o : Option A) (e : Error) → Keeps (or_throw o e)
  Keeps-or_throw none e w = frame.self w
  Keeps-or_throw (some a) e w = frame.self w

  pub Keeps-throw_if : (b : Bool) (e : Error) → Keeps (throw_if b e)
  Keeps-throw_if true e w = frame.self w
  Keeps-throw_if false e w = frame.self w

-- What holds of the value and the tables that a handler returns, if it returns.
abbrev pub Returns : {N A : Type 0} → (A → World N → Type 0) → Result Error A × World N → Type 0
Returns P m = (a : _) → m.0 ≡ ok a → P a m.1

err_not_ok : {A : Type 0} {e : Error} {a : A} → ◌≡◌ {A = Result Error A} (err e) (ok a) → ⊥
err_not_ok h = cc

module _ {N A B : Type 0} (P : B → World N → Type 0) where
  pub Returns-continue :
      (r : Result Error A) (f : A → M N B) (v : World N)
      → ((a : A) → r ≡ ok a → Returns P (f a v))
      → Returns P (continue r f v)
  Returns-continue (ok a) f v next = next a refl
  Returns-continue (err e) f v next = λ b thrown. absurd (err_not_ok thrown)

pub Returns-ok :
    {N A : Type 0} (P : A → World N → Type 0) (a : A) (v : World N) → P a v → Returns P (ok a, v)
Returns-ok P a v h b same = subst (λ x. P x v) (ok-injective same) h

-- Tables that a sequence of calls leads to; each call runs to its end, returning or throwing.
pub data Steps {N : Type 0} (Call : World N → World N → Type 0) (v : World N)
    : World N → Type 0 where
  none_yet : Steps Call v v
  next : {u w : World N} → Steps Call v u → Call u w → Steps Call v w

pub Steps-Rel :
    {N : Type 0} (frame : Frame N) (Call : World N → World N → Type 0)
    → ((u w : World N) → Call u w → frame.Rel u w)
    → {v w : World N} → Steps Call v w
    → frame.Rel v w
Steps-Rel frame Call each none_yet = frame.self _
Steps-Rel frame Call each (next steps call) =
    frame.trans (Steps-Rel frame Call each steps) (each _ _ call)
