-- ===== src/Base/Exec.antt =====
-- Methods that change an object and may raise. What was written before a raise stays written, so
-- the state comes back beside the exception too.
pub mod Keeps
pub mod Returns
pub mod Hoare
use innovativeproject_pm_gen.Base.Result.{Result, ok, err}
use innovativeproject_pm_gen.Base.{◌≡◌}

abbrev pub Exec {ℓ κ μ} : Type ℓ → Type κ → Type μ → Type (ℓ ⊔ κ ⊔ μ)
Exec E S A = S → Result E A × S

module _ {ℓ} {E S A : Type ℓ} where
  unfoldable pub pure : A → Exec E S A
  pure a s = (ok a, s)

  unfoldable pub raise : E → Exec E S A
  raise e s = (err e, s)

  unfoldable pub lift : Result E A → Exec E S A
  lift r s = (r, s)

  unfoldable pub gets : (S → A) → Exec E S A
  gets f s = (ok (f s), s)

  -- A check or a query that changes nothing and may raise.
  unfoldable pub asks : (S → Result E A) → Exec E S A
  asks f s = (f s, s)

  handle : (E → Exec E S A) → Result E A → Exec E S A
  handle h (ok a) s = (ok a, s)
  handle h (err e) s = h e s

  -- `try: m  except …: h`, where `h` raises again what it does not catch.
  unfoldable pub catch : Exec E S A → (E → Exec E S A) → Exec E S A
  unfolding handle
  catch m h s = let (r, s') = m s in handle h r s'

unfoldable pub modify {ℓ} : {E S : Type ℓ} → (S → S) → Exec E S (Unit {0})
modify f s = (ok tt, f s)

module _ {ℓ} {E S A B : Type ℓ} where
  continue : Result E A → (A → Exec E S B) → Exec E S B
  continue (ok a) f s = f a s
  continue (err e) f s = (err e, s)

  infixl 5 ◌>>=◌
  unfoldable pub ◌>>=◌ : Exec E S A → (A → Exec E S B) → Exec E S B
  unfolding continue
  ◌>>=◌ m f s = let (r, s') = m s in continue r f s'

infixl 5 ◌>>◌
unfoldable pub ◌>>◌ {ℓ} : {E S A B : Type ℓ} → Exec E S A → Exec E S B → Exec E S B
unfolding ◌>>=◌
m >> n = m >>= λ _. n

-- One step of a block, from what its first part does at a state.
module _ {ℓ} {E S A B : Type ℓ} where
  pub bind_ok :
      (m : Exec E S A) (f : A → Exec E S B) {s s' : S} {a : A}
      → m s ≡ (ok a, s')
      → (m >>= f) s ≡ f a s'
  unfolding ◌>>=◌
  bind_ok m f h = rw h

  pub bind_err :
      (m : Exec E S A) (f : A → Exec E S B) {s s' : S} {e : E}
      → m s ≡ (err e, s')
      → (m >>= f) s ≡ (err e, s')
  unfolding ◌>>=◌
  bind_err m f h = rw h

module _ {ℓ} {E S A : Type ℓ} where
  pub catch_ok :
      (m : Exec E S A) (h : E → Exec E S A) {s s' : S} {a : A}
      → m s ≡ (ok a, s')
      → catch m h s ≡ (ok a, s')
  unfolding catch
  catch_ok m h p = rw p

  pub catch_err :
      (m : Exec E S A) (h : E → Exec E S A) {s s' : S} {e : E}
      → m s ≡ (err e, s')
      → catch m h s ≡ h e s'
  unfolding catch
  catch_err m h p = rw p
