-- ===== src/Worker/Action.antt =====
-- A step of a daemon: it sees the log of what was done so far, may add to it, and returns or raises.
-- What was done before a raise stays done.
use kswarm.Prelude.{
  ◌≡◌, refl, Bool, true, false, List, ◌∷◌, if◌then◌else◌, Result, ok, err, All, ◌⊎◌, inl, inr,
}

-- The log has the newest event first.
abbrev pub Action : Type 0 → Type 0 → Type 0 → Type 0
Action E F A = List E → Result F A × List E

module _ {E F A : Type 0} where
  unfoldable pub pure : A → Action E F A
  pure a h = (ok a, h)

  unfoldable pub raise : F → Action E F A
  raise e h = (err e, h)

  -- An answer of the world, which may depend on what was done so far.
  unfoldable pub ask : (List E → Result F A) → Action E F A
  ask answer h = (answer h, h)

  unfoldable pub or_fail : Result F A → Action E F A
  or_fail r h = (r, h)

  -- `try: m except: on_error`
  abbrev pub recover : Result F A × List E → (F → Action E F A) → Result F A × List E
  recover (ok a, h) on_error = (ok a, h)
  recover (err e, h) on_error = on_error e h

  unfoldable pub attempt : Action E F A → (F → Action E F A) → Action E F A
  attempt m on_error h = recover (m h) on_error

unfoldable pub emit : {E F : Type 0} → E → Action E F (Unit {0})
emit event h = (ok tt, event ∷ h)

abbrev pub continue :
    {E F A B : Type 0} → Result F A × List E → (A → Action E F B) → Result F B × List E
continue (ok a, h) f = f a h
continue (err e, h) f = (err e, h)

infixl 5 ◌>>=◌ ◌>>◌
unfoldable pub ◌>>=◌ : {E F A B : Type 0} → Action E F A → (A → Action E F B) → Action E F B
◌>>=◌ m f h = continue (m h) f

abbrev pub ◌>>◌ : {E F A B : Type 0} → Action E F A → Action E F B → Action E F B
m >> k = m >>= λ _. k

-- `if b: m`
abbrev pub when : {E F : Type 0} → Bool → Action E F (Unit {0}) → Action E F (Unit {0})
when true m = m
when false m = pure tt

-- Every event that the action adds to the log satisfies the predicate, also when it raises.
pub record Logs {E F A : Type 0} (P : E → Type 0) (m : Action E F A) : Type 0 where
  pub at : (h : List E) → All P h → All P ((m h).1)

-- A value that the action may return.
pub record MayReturn {E F A : Type 0} (m : Action E F A) (a : A) : Type 0 where
  pub before : List E
  pub returns : (m before).0 ≡ ok a

-- A bind returns what its second part returns for a value of the first.
continue_returns :
    {E F A B : Type 0} (p : Result F A × List E) (f : A → Action E F B) (b : B)
    → (continue p f).0 ≡ ok b
    → (a : A) × (p.0 ≡ ok a) × ((f a p.1).0 ≡ ok b)
continue_returns (ok a, h) f b e = (a, refl, e)
continue_returns (err x, h) f b e = absurd (cc)

pub MayReturn-bind :
    {E F A B : Type 0} {m : Action E F A} {f : A → Action E F B} {b : B}
    → MayReturn (m >>= f) b
    → (a : A) × MayReturn m a × MayReturn (f a) b
unfolding ◌>>=◌
MayReturn-bind {m = m} {f = f} {b = b} r =
    let (a, first, second) = continue_returns (m r.before) f b r.returns in
    (
      a,
      record { before = r.before; returns = first },
      record { before = (m r.before).1; returns = second },
    )

same_value : {F A : Type 0} {a b : A} (r : Result F A) → r ≡ ok a → r ≡ ok b → b ≡ a
same_value r ea eb = cc

pub MayReturn-pure : {E F A : Type 0} {a b : A} → MayReturn (pure {E = E} {F = F} a) b → b ≡ a
unfolding pure
MayReturn-pure {a = a} r = same_value (ok a) refl r.returns

-- A value that is returned comes from the body or from the handler.
recover_returns :
    {E F A : Type 0} (p : Result F A × List E) (on_error : F → Action E F A) (a : A)
    → (recover p on_error).0 ≡ ok a
    → (p.0 ≡ ok a) ⊎ ((e : F) × MayReturn (on_error e) a)
recover_returns (ok b, h) on_error a e = inl e
recover_returns (err x, h) on_error a e = inr (x, record { before = h; returns = e })

pub MayReturn-attempt :
    {E F A : Type 0} {m : Action E F A} {on_error : F → Action E F A} {a : A}
    → MayReturn (attempt m on_error) a
    → MayReturn m a ⊎ ((e : F) × MayReturn (on_error e) a)
unfolding attempt
MayReturn-attempt {m = m} {on_error = on_error} {a = a} r =
    elim (recover_returns (m r.before) on_error a r.returns) [
      | inl e ↦ inl (record { before = r.before; returns = e })
      | inr handled ↦ inr handled
    ]

pub raise_returns :
    {E F A : Type 0} {B : Type 0} (e : F) {a : A} → MayReturn (raise {E = E} {A = A} e) a → B
unfolding raise
raise_returns e r = let h = r.returns in absurd (cc)

module _ {E F A : Type 0} (P : E → Type 0) where
  pub Logs-silent : (m : Action E F A) → ((h : List E) → (m h).1 ≡ h) → Logs P m
  Logs-silent m same = record { at = λ h all. rw (same h) all }

  recover_at :
      (p : Result F A × List E) (on_error : F → Action E F A)
      → All P p.1
      → ((e : F) → Logs P (on_error e))
      → All P ((recover p on_error).1)
  recover_at (ok a, h) on_error all k = all
  recover_at (err e, h) on_error all k = (k e).at h all

  pub Logs-if :
      (b : Bool) {m k : Action E F A}
      → (b ≡ true → Logs P m)
      → (b ≡ false → Logs P k)
      → Logs P (if b then m else k)
  Logs-if true hm hk = hm refl
  Logs-if false hm hk = hk refl

  pub Logs-attempt :
      {m : Action E F A} {on_error : F → Action E F A}
      → Logs P m
      → ((e : F) → Logs P (on_error e))
      → Logs P (attempt m on_error)
  unfolding attempt
  Logs-attempt {m = m} {on_error = on_error} lm k = record {
    at = λ h all. recover_at (m h) on_error (lm.at h all) k;
  }

  module _ {B : Type 0} where
    continue_at :
        (p : Result F A × List E) (f : A → Action E F B)
        → All P p.1
        → ((a : A) → p.0 ≡ ok a → Logs P (f a))
        → All P ((continue p f).1)
    continue_at (ok a, h) f all k = (k a refl).at h all
    continue_at (err e, h) f all k = all

    pub Logs-bind :
        {m : Action E F A} {f : A → Action E F B}
        → Logs P m
        → ((a : A) → MayReturn m a → Logs P (f a))
        → Logs P (m >>= f)
    unfolding ◌>>=◌
    Logs-bind {m = m} {f = f} lm k = record {
      at = λ h all.
          continue_at (m h) f (lm.at h all) λ a e. k a (record { before = h; returns = e });
    }

module _ {E F : Type 0} (P : E → Type 0) where
  pub Logs-emit : (event : E) → P event → Logs {F = F} P (emit event)
  unfolding emit
  Logs-emit event p = record { at = λ h all. (p, all) }

  pub Logs-when : (b : Bool) (m : Action E F (Unit {0})) → (b ≡ true → Logs P m) → Logs P (when b m)
  unfolding pure
  Logs-when true m k = k refl
  Logs-when false m k = record { at = λ h all. all }
