-- ===== src/Volume/Locker/Count.antt =====
-- How many of the first `n` goroutines are in a state of some kind, and how that number changes when
-- one of them moves.
use baggageclaim.Prelude.{
  ℕ, zero, suc, ◌+◌, ◌≤◌, ◌<◌, ◌≡◌, ◌≢◌, refl, Bool, true, false, nat_eq, if◌then◌else◌, arith,
  Bool-cases, inl, inr,
}

abbrev pub update {ℓ} : {A : Type ℓ} → (ℕ → A) → ℕ → A → ℕ → A
update f i a j = if nat_eq i j then a else f j

abbrev pub bit : Bool → ℕ
bit true = 1
bit false = 0

module _ {A : Type 0} (is : A → Bool) where
  pub count : ℕ → (ℕ → A) → ℕ
  count zero f = 0
  count (suc n) f = count n f + bit (is (f n))

  count-update_above :
      (n : ℕ) (f : ℕ → A) (i : ℕ) (a : A) → n ≤ i → count n (update f i a) ≡ count n f
  unfolding count
  count-update_above zero f i a h = refl
  count-update_above (suc n) f i a h = ground (arith, count-update_above n f i a)

  -- One goroutine's move takes its old state out of the count and puts its new one in.
  pub count-update :
      (n : ℕ) (f : ℕ → A) (i : ℕ) (a : A)
      → i < n
      → count n (update f i a) + bit (is (f i)) ≡ count n f + bit (is a)
  unfolding count
  count-update zero f i a h = absurd (omega arith)
  count-update (suc n) f i a h = elim (Bool-cases (nat_eq i n)) [
    | inl last ↦ ground (arith, count-update_above n f i a)
    | inr below ↦ ground (arith, count-update n f i a)
  ]

  -- A goroutine that is counted makes the count positive.
  pub count-pos : (n : ℕ) (f : ℕ → A) (i : ℕ) → i < n → is (f i) ≡ true → 1 ≤ count n f
  unfolding count
  count-pos zero f i h e = absurd (omega arith)
  count-pos (suc n) f i h e = elim (Bool-cases (nat_eq i n)) [
    | inl last ↦ ground arith
    | inr below ↦ ground (arith, count-pos n f i)
  ]

  -- Two of them make it at least two.
  pub count-two :
      (n : ℕ) (f : ℕ → A) (i j : ℕ)
      → i < n
      → j < n
      → i ≢ j
      → is (f i) ≡ true
      → is (f j) ≡ true
      → 2 ≤ count n f
  unfolding count
  count-two zero f i j hi hj ne ei ej = absurd (omega arith)
  count-two (suc n) f i j hi hj ne ei ej =
      ground (arith, count-pos n f i, count-pos n f j, count-two n f i j)

  pub count-none : (n : ℕ) (f : ℕ → A) → ((i : ℕ) → is (f i) ≡ false) → count n f ≡ 0
  unfolding count
  count-none zero f h = refl
  count-none (suc n) f h = ground (arith, count-none n f h, h n)

  -- Where the count is positive, someone is counted.
  pub count-find : (n : ℕ) (f : ℕ → A) → 1 ≤ count n f → (i : ℕ) × (i < n) × (is (f i) ≡ true)
  unfolding count
  count-find zero f h = absurd (omega arith)
  count-find (suc n) f h = elim (Bool-cases (is (f n))) [
    | inl last ↦ (n, omega arith, last)
    | inr no_last ↦ let (i, lt, e) = count-find n f (ground arith) in (i, omega arith, e)
  ]
