-- ===== src/Base/Unique.antt =====
-- Lists of numbers without repetitions.
use Prim.Native.Nat.{ℕ}
use mathlib.Core.Path.{subst, ◌≡◌, sym}
use mathlib.Core.Logic.{◌⊎◌, inr, inl, ◌≢◌}
use mathlib.Core.List.{List, [], ◌∷◌, ◌++◌}

abbrev pub NotIn : ℕ → List ℕ → Type 0
NotIn x [] = Unit {0}
NotIn x (y ∷ ys) = (x ≢ y) × NotIn x ys

abbrev pub Distinct : List ℕ → Type 0
Distinct [] = Unit {0}
Distinct (x ∷ xs) = NotIn x xs × Distinct xs

pub NotIn-append_left : (x : ℕ) (xs ys : List ℕ) → NotIn x (xs ++ ys) → NotIn x xs
NotIn-append_left x [] ys n = tt
NotIn-append_left x (y ∷ xs) ys n = (n.0, NotIn-append_left x xs ys n.1)

pub NotIn-append_right : (x : ℕ) (xs ys : List ℕ) → NotIn x (xs ++ ys) → NotIn x ys
NotIn-append_right x [] ys n = n
NotIn-append_right x (y ∷ xs) ys n = NotIn-append_right x xs ys n.1

pub NotIn-snoc : (x w : ℕ) (xs : List ℕ) → NotIn x xs → x ≢ w → NotIn x (xs ++ (w ∷ []))
NotIn-snoc x w [] n e = (e, tt)
NotIn-snoc x w (y ∷ ys) n e = (n.0, NotIn-snoc x w ys n.1 e)

pub Distinct-snoc : (w : ℕ) (xs : List ℕ) → Distinct xs → NotIn w xs → Distinct (xs ++ (w ∷ []))
Distinct-snoc w [] d n = (tt, tt)
Distinct-snoc w (y ∷ ys) d n =
    (NotIn-snoc y w ys d.0 (λ e. n.0 (sym e)), Distinct-snoc w ys d.1 n.1)

abbrev pub All {ℓ} : {A : Type ℓ} → (A → Type 0) → List A → Type 0
All P [] = Unit {0}
All P (x ∷ xs) = P x × All P xs

pub All-map {ℓ} :
    {A : Type ℓ} (P Q : A → Type 0) (xs : List A) → ((x : A) → P x → Q x) → All P xs → All Q xs
All-map P Q [] f a = tt
All-map P Q (x ∷ xs) f a = (f x a.0, All-map P Q xs f a.1)

pub All-snoc {ℓ} :
    {A : Type ℓ} (P : A → Type 0) (xs : List A) (w : A) → All P xs → P w → All P (xs ++ (w ∷ []))
All-snoc P [] w a h = (h, tt)
All-snoc P (x ∷ xs) w a h = (a.0, All-snoc P xs w a.1 h)

-- What all have, and a number has not, keeps the number out.
pub All-NotIn : (P : ℕ → Type 0) (w : ℕ) (xs : List ℕ) → All P xs → (P w → ⊥) → NotIn w xs
All-NotIn P w [] a h = tt
All-NotIn P w (x ∷ xs) a h = ((λ e. h (subst P (sym e) a.0)), All-NotIn P w xs a.1 h)

-- Only a number that is not in the list may lose what the others have.
pub All-away :
    (P Q : ℕ → Type 0) (w : ℕ) (xs : List ℕ)
    → NotIn w xs
    → ((x : ℕ) → w ≢ x → P x → Q x)
    → All P xs
    → All Q xs
All-away P Q w [] n f a = tt
All-away P Q w (x ∷ xs) n f a = (f x n.0 a.0, All-away P Q w xs n.1 f a.1)

abbrev pub In : ℕ → List ℕ → Type 0
In x [] = ⊥
In x (y ∷ ys) = (x ≡ y) ⊎ In x ys

pub In-snoc : (x w : ℕ) (xs : List ℕ) → In x xs → In x (xs ++ (w ∷ []))
In-snoc x w [] i = absurd i
In-snoc x w (y ∷ ys) (inl e) = inl e
In-snoc x w (y ∷ ys) (inr i) = inr (In-snoc x w ys i)

pub In-last : (w : ℕ) (xs : List ℕ) → In w (xs ++ (w ∷ []))
In-last w [] = inl (λ i. w)
In-last w (x ∷ xs) = inr (In-last w xs)

pub In-rotate : (x w : ℕ) (xs : List ℕ) → In x (w ∷ xs) → In x (xs ++ (w ∷ []))
In-rotate x w xs (inl e) = subst (λ t. In t (xs ++ (w ∷ []))) (sym e) (In-last w xs)
In-rotate x w xs (inr i) = In-snoc x w xs i
