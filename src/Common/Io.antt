-- ===== src/Common/Io.antt =====
-- Code that awaits: it changes a state and ends with a value or an error; the state stands either way.
use mathlib.Core.Path.{◌≡◌, refl, subst}
use bhtune.Common.Result.{Result, ok, err, map_err, ok_injective}

abbrev pub Io : Type 0 → Type 0 → Type 0 → Type 0
Io S E A = S → Result E A × S

module _ {S E : Type 0} where
  abbrev pub pure : {A : Type 0} → A → Io S E A
  pure a s = (ok a, s)

  abbrev pub throw : {A : Type 0} → E → Io S E A
  throw e s = (err e, s)

  abbrev pub then_with : {A B : Type 0} → Result E A × S → (A → Io S E B) → Result E B × S
  then_with (ok a, s) f = f a s
  then_with (err e, s) f = (err e, s)

  infixl 5 ◌>>=◌ ◌>>◌
  abbrev pub ◌>>=◌ : {A B : Type 0} → Io S E A → (A → Io S E B) → Io S E B
  ◌>>=◌ m f s = then_with (m s) f

  abbrev pub ◌>>◌ : {B : Type 0} → Io S E (Unit {0}) → Io S E B → Io S E B
  m >> k = m >>= λ _. k

  abbrev pub gets : {A : Type 0} → (S → A) → Io S E A
  gets f s = (ok (f s), s)

  abbrev pub modify : (S → S) → Io S E (Unit {0})
  modify f s = (ok tt, f s)

  abbrev pub lift : {A : Type 0} → Result E A → Io S E A
  lift r s = (r, s)

  -- The code ends with `Q` of its value and state, or stops in a state with `R`.
  pub data Ends {A : Type 0} (Q : A → S → Type 0) (R : S → Type 0) : Result E A × S → Type 0 where
    done : {a : A} {s : S} → Q a s → Ends Q R (ok a, s)
    stopped : {e : E} {s : S} → R s → Ends Q R (err e, s)

  pub Ends-then_with :
      {A B : Type 0} {Q : A → S → Type 0} {Q' : B → S → Type 0} {R : S → Type 0}
      {r : Result E A × S} {f : A → Io S E B}
      → Ends Q R r
      → ((a : A) (t : S) → Q a t → Ends Q' R (f a t))
      → Ends Q' R (then_with r f)
  Ends-then_with (done q) k = k _ _ q
  Ends-then_with (stopped r) k = stopped r

  pub Ends-weaken :
      {A : Type 0} {Q Q' : A → S → Type 0} {R R' : S → Type 0} {r : Result E A × S}
      → Ends Q R r
      → ((a : A) (t : S) → Q a t → Q' a t)
      → ((t : S) → R t → R' t)
      → Ends Q' R' r
  Ends-weaken (done q) f g = done (f _ _ q)
  Ends-weaken (stopped r) f g = stopped (g _ r)

  -- A lifted result.
  pub Ends-lift :
      {A : Type 0} {Q : A → S → Type 0} {R : S → Type 0} (r : Result E A) (s : S)
      → ((a : A) → r ≡ ok a → Q a s)
      → R s
      → Ends Q R (r, s)
  Ends-lift (ok a) s h k = done (h a refl)
  Ends-lift (err e) s h k = stopped k

  -- What holds of the state either way.
  pub Ends-state :
      {A : Type 0} {Q : A → S → Type 0} {R : S → Type 0} {r : Result E A × S} (P : S → Type 0)
      → Ends Q R r
      → ((a : A) (s : S) → Q a s → P s)
      → ((s : S) → R s → P s)
      → P r.1
  Ends-state P (done q) f g = f _ _ q
  Ends-state P (stopped h) f g = g _ h

  -- What holds of a result.
  pub Ends-value :
      {A : Type 0} {Q : A → S → Type 0} {R : S → Type 0} {r : Result E A × S} {a : A}
      → Ends Q R r
      → r.0 ≡ ok a
      → Q a r.1
  Ends-value {Q = Q} (done {s = s} q) e = subst (λ b. Q b s) (ok_injective e) q
  Ends-value (stopped h) e = cc

  -- A failure that is taken as a value.
  abbrev pub attempt : {G A : Type 0} → Io S E A → Io S G (Result E A)
  attempt m s = let (r, t) = m s in (ok r, t)

module _ {S E G : Type 0} where
  pub Ends-attempt :
      {A : Type 0} {Q : A → S → Type 0} {R : S → Type 0} {Q' : Result E A → S → Type 0}
      {R' : S → Type 0} {r : Result E A × S}
      → Ends Q R r
      → ((a : A) (t : S) → Q a t → Q' (ok a) t)
      → ((e : E) (t : S) → R t → Q' (err e) t)
      → Ends {E = G} Q' R' (ok r.0, r.1)
  Ends-attempt (done q) f g = done (f _ _ q)
  Ends-attempt (stopped h) f g = done (g _ _ h)

  pub Ends-map_err :
      {A : Type 0} {Q : A → S → Type 0} {R : S → Type 0} {r : Result E A × S} (f : E → G)
      → Ends Q R r
      → Ends {E = G} Q R (map_err f r.0, r.1)
  Ends-map_err f (done q) = done q
  Ends-map_err f (stopped h) = stopped h
