-- ===== src/Wire/Numbers.antt =====
-- A number is read back from its bytes.
use vpfs_iroh.Base.{
  ℕ, zero, suc, ◌+◌, ◌*◌, ◌/◌, ◌%◌, ◌^◌, ◌<◌, [], ◌∷◌, ◌++◌, length, length-append, ◌≡◌, refl,
  arith, ◌∙◌,
}
use native.Mathlib.Nat.{pow-suc}
use vpfs_iroh.Files.{Bytes}
use vpfs_iroh.Wire.{to_be_bytes, from_be_bytes}

pub length-to_be_bytes : (size n : ℕ) → length (to_be_bytes size n) ≡ size
unfolding to_be_bytes
length-to_be_bytes zero n = refl
length-to_be_bytes (suc size) n =
    length-append (to_be_bytes size (n / 256)) (n % 256 ∷ [])
    ∙ omega (arith, length-to_be_bytes size (n / 256))

from_be_bytes-append :
    (acc : ℕ) (xs ys : Bytes)
    → from_be_bytes acc (xs ++ ys) ≡ from_be_bytes (from_be_bytes acc xs) ys
unfolding from_be_bytes
from_be_bytes-append acc [] ys = refl
from_be_bytes-append acc (x ∷ xs) ys = from_be_bytes-append (acc * 256 + x) xs ys

from_be_bytes-last :
    (size n : ℕ)
    → from_be_bytes 0 (to_be_bytes (suc size) n)
      ≡ from_be_bytes 0 (to_be_bytes size (n / 256)) * 256 + n % 256
unfolding to_be_bytes
from_be_bytes-last size n =
    from_be_bytes-append 0 (to_be_bytes size (n / 256)) (n % 256 ∷ [])
    ∙ (unfold from_be_bytes in refl)

-- A number below the bound of its bytes is read back.
pub from_be_bytes-to_be_bytes :
    (size n : ℕ) → n < 256 ^ size → from_be_bytes 0 (to_be_bytes size n) ≡ n
from_be_bytes-to_be_bytes zero n h = unfold to_be_bytes from_be_bytes in omega arith
from_be_bytes-to_be_bytes (suc size) n h =
    from_be_bytes-last size n
    ∙ omega (arith, from_be_bytes-to_be_bytes size (n / 256) (omega (arith, pow-suc 256 size)))
