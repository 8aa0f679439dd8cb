-- ===== src/Base/Loops.antt =====
-- Counted loops that push one element a round: `for (let i = at; i < at + n; i++) out.push(f(i))`.
use Prim.Native.Nat.{ℕ, zero, suc, ◌+◌, ◌≤◌, ◌<◌}
use mathlib.Core.Path.{◌≡◌, refl, ap, ◌∙◌}
use mathlib.Core.List.{List, [], ◌∷◌, ◌++◌}
use native.Mathlib.Omega.{arith}
use kubiq.Base.Lists.{length}

module _ {ℓ} {A : Type ℓ} where
  abbrev pub build : ℕ → ℕ → (ℕ → A) → List A
  build zero at f = []
  build (suc n) at f = f at ∷ build n (at + 1) f

  pub build_congr :
      (n at : ℕ) (f g : ℕ → A)
      → ((i : ℕ) → at ≤ i → i < at + n → f i ≡ g i)
      → build n at f ≡ build n at g
  build_congr zero at f g h = refl
  build_congr (suc n) at f g h =
      rw (h at (omega arith) (omega arith)) (
        ap (λ r. g at ∷ r)
          (build_congr n (at + 1) f g (λ i lo hi. h i (omega arith) (omega arith))))

  pub build-shift : (n at k : ℕ) (f : ℕ → A) → build n (at + k) f ≡ build n at (λ i. f (i + k))
  build-shift zero at k f = refl
  build-shift (suc n) at k f =
      let e : at + k + 1 ≡ at + 1 + k = omega arith in
      ap (λ r. f (at + k) ∷ r) (ap (λ j. build n j f) e ∙ build-shift n (at + 1) k f)

  pub build-append :
      (n m at to : ℕ) (f : ℕ → A) → to ≡ at + n → build n at f ++ build m to f ≡ build (n + m) at f
  build-append zero m at to f e =
      let e' : to ≡ at = omega arith in let z : zero + m ≡ m = omega arith in rw (e', z)
  build-append (suc n) m at to f e =
      let s : suc n + m ≡ suc (n + m) = omega arith in
      rw s (ap (λ r. f at ∷ r) (build-append n m (at + 1) to f (omega arith)))

  pub length-build : (n at : ℕ) (f : ℕ → A) → length (build n at f) ≡ n
  length-build zero at f = refl
  length-build (suc n) at f = ap suc (length-build n (at + 1) f)
