-- ===== src/Prelude/Bytes.antt =====
-- Bytes as numbers, and the big-endian conversions of the standard library.
use Prim.Native.Nat.{ℕ, zero, suc, ◌+◌, ◌-◌, ◌*◌, ◌/◌, ◌%◌, ◌^◌, ◌<◌}
use mathlib.Core.Path.{◌≡◌, refl, sym, ap, ◌∙◌}
use mathlib.Core.List.{List, [], ◌∷◌, ◌++◌, append-nil, append_assoc}
use native.Mathlib.Omega.{arith}
use atomic_blob_store.Prelude.Lists.{length, length-append, All, All-append}

abbrev pub IsByte : ℕ → Type 0
IsByte b = b < 256

-- `usize` is 64 bits wide.
-- The largest number of bytes that an allocation may have.
abbrev pub isize_max : ℕ
isize_max = 2 ^ 63 - 1

abbrev pub u64_max : ℕ
u64_max = 2 ^ 64 - 1

-- `n.to_be_bytes()` of a `w`-byte integer.
unfoldable pub to_be : ℕ → ℕ → List ℕ
to_be zero n = []
to_be (suc w) n = to_be w (n / 256) ++ (n % 256 ∷ [])

-- `from_be_bytes`, from the value `acc` of the bytes before.
unfoldable pub from_be : ℕ → List ℕ → ℕ
from_be acc [] = acc
from_be acc (b ∷ bs) = from_be (acc * 256 + b) bs

from_be-append : (a : ℕ) (xs ys : List ℕ) → from_be a (xs ++ ys) ≡ from_be (from_be a xs) ys
unfolding from_be
from_be-append a [] ys = refl
from_be-append a (x ∷ xs) ys = from_be-append (a * 256 + x) xs ys

pub from_be-to_be : (w n : ℕ) → n < 256 ^ w → from_be 0 (to_be w n) ≡ n
unfolding to_be
from_be-to_be zero n h = unfold from_be in omega arith
from_be-to_be (suc w) n h =
    rw
      (from_be-append 0 (to_be w (n / 256)) (n % 256 ∷ []), from_be-to_be w (n / 256) (omega arith))
      (unfold from_be in omega arith)

last_digit : (w a b : ℕ) → b < 256 → to_be (suc w) (a * 256 + b) ≡ to_be w a ++ (b ∷ [])
unfolding to_be
last_digit w a b h =
    let quotient : (a * 256 + b) / 256 ≡ a = omega arith in
    let rest : (a * 256 + b) % 256 ≡ b = omega arith in rw (quotient, rest)

to_be-from_be_acc :
    (w a : ℕ) (bs : List ℕ) → All IsByte bs → to_be (length bs + w) (from_be a bs) ≡ to_be w a ++ bs
unfolding from_be
to_be-from_be_acc w a [] h = ap (λ (k : ℕ). to_be k a) (omega arith) ∙ sym (append-nil (to_be w a))
to_be-from_be_acc w a (b ∷ bs) h =
    ap (λ (k : ℕ). to_be k (from_be (a * 256 + b) bs)) (omega arith)
    ∙ to_be-from_be_acc (suc w) (a * 256 + b) bs h.1
    ∙ ap (λ (l : List ℕ). l ++ bs) (last_digit w a b h.0)
    ∙ append_assoc (to_be w a) (b ∷ []) bs

pub to_be-from_be : (bs : List ℕ) → All IsByte bs → to_be (length bs) (from_be 0 bs) ≡ bs
to_be-from_be bs h =
    ap (λ (k : ℕ). to_be k (from_be 0 bs)) (omega arith)
    ∙ to_be-from_be_acc 0 0 bs h
    ∙ unfold to_be in refl

pub length-to_be : (w n : ℕ) → length (to_be w n) ≡ w
unfolding to_be
length-to_be zero n = refl
length-to_be (suc w) n =
    omega (arith, length-append (to_be w (n / 256)) (n % 256 ∷ []), length-to_be w (n / 256))

pub to_be-IsByte : (w n : ℕ) → All IsByte (to_be w n)
unfolding to_be
to_be-IsByte zero n = tt
to_be-IsByte (suc w) n =
    All-append IsByte (to_be w (n / 256)) (n % 256 ∷ []) (to_be-IsByte w (n / 256)) (omega arith)
