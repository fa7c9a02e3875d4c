-- ===== src/Kernel/Printk/Parse.antt =====
-- A number that the kernel prints is the number that libc reads.
use yax.Base.{
  ◌≤◌, none, some, ◌++◌, subst, sym, false, false, length, [], true, Bool-cases, inl, inr, ap, ◌∙◌,
  ==→eq, ℕ, zero, suc, ◌+◌, ◌*◌, ◌/◌, ◌%◌, ◌^◌, ◌<◌, ◌≡◌, refl, List, ◌∷◌, arith, ltb, ◌==◌,
  if◌then◌else◌,
}
use yax.Base.Int.{pos}
use yax.Kernel.Printk.{pcprintk, uiprintk, nprintk, fill}
use yax.Libc.Num.{llong_max, strtoll, signed}
use yax.Libc.Num.Decimal.{strtoll-decimal, AllDigits, decimal, chars}

-- The values of the digits that the loop puts in front of others.
digits_of : ℕ → ℕ → List ℕ → List ℕ
digits_of zero n ds = ds
digits_of (suc room) n ds =
    let ds' = n % 10 ∷ ds in
    let rest = digits_of room (n / 10) ds' in if n / 10 == 0 then ds' else rest

fill-digits_of :
    (room n : ℕ) (ds : List ℕ) → fill room 10 n (chars ds) ≡ chars (digits_of room n ds)
unfolding fill digits_of
fill-digits_of zero n ds = refl
fill-digits_of (suc room) n ds =
    let c : (if ltb (n % 10) 10 then 48 + n % 10 else 55 + n % 10) ≡ 48 + n % 10 = ground arith in
    elim (Bool-cases (n / 10 == 0)) [
      | inl e ↦ rw (c, e) refl
      | inr e ↦ rw (c, e) (fill-digits_of room (n / 10) (n % 10 ∷ ds))
    ]

digits_of-AllDigits : (room n : ℕ) (ds : List ℕ) → AllDigits ds → AllDigits (digits_of room n ds)
unfolding digits_of
digits_of-AllDigits zero n ds a = a
digits_of-AllDigits (suc room) n ds a = elim (Bool-cases (n / 10 == 0)) [
  | inl e ↦ rw e (omega arith, a)
  | inr e ↦ rw e (digits_of-AllDigits room (n / 10) (n % 10 ∷ ds) (omega arith, a))
]

decimal-digits_of :
    (room n : ℕ) (ds : List ℕ)
    → n < 10 ^ suc room
    → decimal 0 (digits_of (suc room) n ds) ≡ decimal n ds
unfolding digits_of
decimal-digits_of zero n ds h =
    let z : (n / 10 == 0) ≡ true = ground arith in
    let e : 0 * 10 + n % 10 ≡ n = omega arith in rw z (ap (λ m. decimal m ds) e)
decimal-digits_of (suc room) n ds h = elim (Bool-cases (n / 10 == 0)) [
  | inl z ↦
      let e : 0 * 10 + n % 10 ≡ n = omega (arith, ==→eq (n / 10) 0 z) in
      rw z (ap (λ m. decimal m ds) e)
  | inr z ↦
      let e : n / 10 * 10 + n % 10 ≡ n = omega arith in
      let more : n / 10 < 10 ^ suc room = omega (arith, h) in
      rw z (decimal-digits_of room (n / 10) (n % 10 ∷ ds) more ∙ ap (λ m. decimal m ds) e)
]

digits_of-cons :
    (room n x : ℕ) (ds : List ℕ) → (y : ℕ) × (ys : List ℕ) × (digits_of room n (x ∷ ds) ≡ y ∷ ys)
unfolding digits_of
digits_of-cons zero n x ds = (x, ds, refl)
digits_of-cons (suc room) n x ds = elim (Bool-cases (n / 10 == 0)) [
  | inl e ↦ (n % 10, x ∷ ds, rw e refl)
  | inr e ↦ let (y, ys, c) = digits_of-cons room (n / 10) (n % 10) (x ∷ ds) in (y, ys, rw e c)
]

digits_of-some : (n : ℕ) → (y : ℕ) × (ys : List ℕ) × (digits_of 16 n [] ≡ y ∷ ys)
unfolding digits_of
digits_of-some n = elim (Bool-cases (n / 10 == 0)) [
  | inl e ↦ (n % 10, [], rw e refl)
  | inr e ↦ let (y, ys, c) = digits_of-cons 15 (n / 10) (n % 10) [] in (y, ys, rw e c)
]

nprintk-chars : (ds : List ℕ) → AllDigits ds → nprintk (chars ds) ≡ chars ds
unfolding nprintk pcprintk
nprintk-chars [] a = refl
nprintk-chars (d ∷ ds) a = ground (arith, nprintk-chars ds a.1)

uiprintk-digits_of : (n : ℕ) → uiprintk n ≡ chars (digits_of 16 n [])
unfolding uiprintk
uiprintk-digits_of n =
    ap nprintk (fill-digits_of 16 n []) ∙ nprintk-chars _ (digits_of-AllDigits 16 n [] tt)

signed-pos : (n : ℕ) → signed false n ≡ pos n
signed-pos zero = refl
signed-pos (suc n) = refl

length-chars : (ds : List ℕ) → length (chars ds) ≡ length ds
length-chars [] = refl
length-chars (d ∷ ds) = ap suc (length-chars ds)

-- What `uiprintk` prints for an `unsigned int`, up to a terminator, `strtoll` reads in base 10 as that
-- number, to its end and without an error.
pub strtoll-uiprintk :
    (n : ℕ) (r : List ℕ)
    → n < 2 ^ 32
    → strtoll (uiprintk n ++ (0 ∷ r)) 10
      ≡ some (record { result = pos n; stop = some (length (uiprintk n)); error = none })
strtoll-uiprintk n r h =
    let (y, ys, c) = digits_of-some n in
    let all : AllDigits (y ∷ ys) = subst AllDigits c (digits_of-AllDigits 16 n [] tt) in
    let number : decimal 0 (y ∷ ys) ≡ n =
      ap (decimal 0) (sym c) ∙ decimal-digits_of 15 n [] (omega arith) in
    let fits : decimal 0 (y ∷ ys) ≤ llong_max = omega (arith, number) in
    let printed : uiprintk n ≡ chars (y ∷ ys) = uiprintk-digits_of n ∙ ap chars c in
    let size : length (chars (y ∷ ys)) ≡ 0 + length (y ∷ ys) =
      omega (arith, length-chars (y ∷ ys)) in
    rw printed (strtoll-decimal false y ys r all fits ∙ rw (size, number, signed-pos n) refl)
