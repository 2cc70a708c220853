-- ===== src/Prelude/Stores.antt =====
-- Arrays in memory and blocks on a disk, as functions of the number of the element.
use Prim.Native.Nat.{ℕ}
use mathlib.Core.Path.{◌≡◌, refl}
use mathlib.Core.Logic.{◌≢◌}
use mathlib.Core.Bool.{true, false, ◌&&◌}
use native.Mathlib.Omega.{arith}
use micro.Prelude.Tests.{◌==◌, if◌then◌else◌}

-- `f[i] = v` and `f[i][j] = v`
unfoldable pub put {ℓ} : {A : Type ℓ} → (ℕ → A) → ℕ → A → ℕ → A
put f i v k = if i == k then v else f k

unfoldable pub put2 {ℓ} : {A : Type ℓ} → (ℕ → ℕ → A) → ℕ → ℕ → A → ℕ → ℕ → A
put2 f i j v k l = if (i == k) && (j == l) then v else f k l

module _ {ℓ} {A : Type ℓ} where
  pub put_self : (f : ℕ → A) (i : ℕ) (v : A) → put f i v i ≡ v
  unfolding put
  put_self f i v = let e : (i == i) ≡ true = ground arith in rw (e) refl

  pub put_ne : (f : ℕ → A) (i k : ℕ) (v : A) → i ≢ k → put f i v k ≡ f k
  unfolding put
  put_ne f i k v h = let e : (i == k) ≡ false = ground arith in rw (e) refl

  pub put2_self : (f : ℕ → ℕ → A) (i j : ℕ) (v : A) → put2 f i j v i j ≡ v
  unfolding put2
  put2_self f i j v = let e : ((i == i) && (j == j)) ≡ true = ground arith in rw (e) refl

  pub put2_ne :
      (f : ℕ → ℕ → A) (i j k l : ℕ) (v : A)
      → ((i == k) && (j == l)) ≡ false
      → put2 f i j v k l ≡ f k l
  unfolding put2
  put2_ne f i j k l v h = rw (h) refl
