-- ===== src/Base/Texts.antt =====
-- Texts as lists of numbers (bytes, or code points where the comment of a module says so).
use Prim.Native.Nat.{ℕ}
use Prim.Native.Char.{code}
use Prim.Native.String.{String}
use mathlib.Core.Path.{◌≡◌, refl}
use mathlib.Core.Logic.{◌≢◌}
use mathlib.Core.Logic.{◌↔◌}
use mathlib.Core.Bool.{Bool, true, false, ◌&&◌}
use mathlib.Core.List.{List, [], ◌∷◌, ◌++◌}
use native.Mathlib.Omega.{arith}
use rate_limiter.Base.Tests.{◌==◌}
use rate_limiter.Base.Lists.{length}

abbrev pub Bytes : Type 0
Bytes = List ℕ

-- The code points of a literal; they are its bytes when the text is ASCII.
abbrev pub codes : String → Bytes
codes String.[] = []
codes (String.◌∷◌ c s) = code c ∷ codes s

unfoldable pub bytes_eq : Bytes → Bytes → Bool
bytes_eq [] [] = true
bytes_eq [] (y ∷ ys) = false
bytes_eq (x ∷ xs) [] = false
bytes_eq (x ∷ xs) (y ∷ ys) = (x == y) && bytes_eq xs ys

pub bytes_eq_sound : (xs ys : Bytes) → bytes_eq xs ys ≡ true → xs ≡ ys
unfolding bytes_eq
bytes_eq_sound [] [] h = refl
bytes_eq_sound [] (y ∷ ys) h = ground arith
bytes_eq_sound (x ∷ xs) [] h = ground arith
bytes_eq_sound (x ∷ xs) (y ∷ ys) h = ground (arith, bytes_eq_sound xs ys)

pub bytes_eq_refl : (xs : Bytes) → bytes_eq xs xs ≡ true
unfolding bytes_eq
bytes_eq_refl [] = refl
bytes_eq_refl (x ∷ xs) = ground (arith, bytes_eq_refl xs)

pub bytes_eq_iff : (xs ys : Bytes) → (bytes_eq xs ys ≡ true) ↔ (xs ≡ ys)
bytes_eq_iff xs ys = (bytes_eq_sound xs ys, λ e. rw e (bytes_eq_refl ys))

pub append_cancel : (xs ys zs : Bytes) → xs ++ zs ≡ ys ++ zs → length xs ≡ length ys → xs ≡ ys
append_cancel [] [] zs e l = refl
append_cancel [] (y ∷ ys) zs e l = absurd (omega arith)
append_cancel (x ∷ xs) [] zs e l = absurd (omega arith)
append_cancel (x ∷ xs) (y ∷ ys) zs e l = ground (arith, append_cancel xs ys zs)

pub bytes_apart : (xs ys : Bytes) → bytes_eq xs ys ≡ false → xs ≢ ys
bytes_apart xs ys h e = let same : bytes_eq xs ys ≡ true = rw e (bytes_eq_refl ys) in cc
