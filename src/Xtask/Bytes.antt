-- ===== src/Xtask/Bytes.antt =====
-- Taking from and dropping of a text, for the splices in Xtask/Splice.
use percas.Base.{
  ℕ, zero, suc, ◌+◌, ◌-◌, ◌≤◌, ◌<◌, List, [], ◌∷◌, ◌++◌, length, ◌≡◌, refl, sym, ap, ◌∙◌, arith,
}
use percas.Xtask.Snapshots.{take, drop, boundary_at}

pub take-append : (i : ℕ) (xs ys : List ℕ) → i ≤ length xs → take i (xs ++ ys) ≡ take i xs
take-append zero xs ys l = refl
take-append (suc i) [] ys l = absurd (omega (arith, l))
take-append (suc i) (x ∷ xs) ys l = ap (λ r. x ∷ r) (take-append i xs ys (omega (arith, l)))

pub drop-append : (i : ℕ) (xs ys : List ℕ) → i ≤ length xs → drop i (xs ++ ys) ≡ drop i xs ++ ys
drop-append zero xs ys l = refl
drop-append (suc i) [] ys l = absurd (omega (arith, l))
drop-append (suc i) (x ∷ xs) ys l = drop-append i xs ys (omega (arith, l))

pub length-take : (n : ℕ) (xs : List ℕ) → n ≤ length xs → length (take n xs) ≡ n
length-take zero xs l = refl
length-take (suc n) [] l = absurd (omega (arith, l))
length-take (suc n) (x ∷ xs) l = ap suc (length-take n xs (omega (arith, l)))

pub take-take : (i n : ℕ) (xs : List ℕ) → i ≤ n → take i (take n xs) ≡ take i xs
take-take zero n xs l = refl
take-take (suc i) zero xs l = absurd (omega (arith, l))
take-take (suc i) (suc n) [] l = refl
take-take (suc i) (suc n) (x ∷ xs) l = ap (λ r. x ∷ r) (take-take i n xs (omega (arith, l)))

pub take_nil : (n : ℕ) → take n [] ≡ []
take_nil zero = refl
take_nil (suc n) = refl

pub drop_nil : (n : ℕ) → drop n [] ≡ []
drop_nil zero = refl
drop_nil (suc n) = refl

pub suc_add : (i k : ℕ) → suc i + k ≡ suc (i + k)
suc_add i k = omega arith

pub drop-take : (i k : ℕ) (xs : List ℕ) → drop i (take (i + k) xs) ≡ take k (drop i xs)
drop-take zero k xs = ap (λ n. take n xs) (omega arith)
drop-take (suc i) k [] = rw (suc_add i k) (sym (take_nil k))
drop-take (suc i) k (x ∷ xs) = rw (suc_add i k) (drop-take i k xs)

pub drop-drop : (i k : ℕ) (xs : List ℕ) → drop k (drop i xs) ≡ drop (i + k) xs
drop-drop zero k xs = ap (λ n. drop n xs) (omega arith)
drop-drop (suc i) k [] = drop_nil k ∙ sym (drop_nil (suc i + k))
drop-drop (suc i) k (x ∷ xs) = rw (suc_add i k) (drop-drop i k xs)

pub boundary-take :
    (i n : ℕ) (xs ys : List ℕ)
    → i < n
    → n ≤ length xs
    → boundary_at (take n xs ++ ys) i ≡ boundary_at xs i
unfolding boundary_at
boundary-take i zero xs ys l m = absurd (omega (arith, l))
boundary-take i (suc n) [] ys l m = absurd (omega (arith, m))
boundary-take zero (suc n) (x ∷ xs) ys l m = refl
boundary-take (suc i) (suc n) (x ∷ xs) ys l m =
    boundary-take i n xs ys (omega (arith, l)) (omega (arith, m))

pub minus_zero : (n : ℕ) → n - 0 ≡ n
minus_zero n = omega arith

pub zero_plus : (n : ℕ) → n ≡ 0 + n
zero_plus n = omega arith
