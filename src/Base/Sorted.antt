-- ===== src/Base/Sorted.antt =====
-- `sorted(xs, key=..., reverse=True)`, a stable sort in falling order: equal keys keep their places.
use Prim.Native.Nat.{ℕ, ◌≤◌}
use mathlib.Core.Path.{◌≡◌, refl}
use mathlib.Core.Logic.{inl, inr}
use native.Mathlib.Nat.{le_trans}
use mathlib.Core.Bool.{Bool, true, false}
use mathlib.Core.List.Perm
use mathlib.Core.List.{List, [], ◌∷◌, Perm}
use native.Mathlib.Omega.{arith}
use azure_iot_ops_cli_extens.Base.Tests.{if◌then◌else◌, Bool-cases}
use azure_iot_ops_cli_extens.Base.Lists.{All, nonempty}

-- Falling in one number.
abbrev pub Descending {ℓ} : {A : Type ℓ} → (A → ℕ) → List A → Type 0
Descending measure [] = Unit
Descending measure (x ∷ xs) = All (λ y. measure y ≤ measure x) xs × Descending measure xs

module _ {ℓ} {A : Type ℓ} (key_lt : A → A → Bool) where
  unfoldable pub insert_desc : A → List A → List A
  insert_desc x [] = x ∷ []
  insert_desc x (y ∷ ys) =
      let later = y ∷ insert_desc x ys in if key_lt x y then later else x ∷ y ∷ ys

  unfoldable pub sorted_desc : List A → List A
  unfolding insert_desc
  sorted_desc [] = []
  sorted_desc (x ∷ xs) = insert_desc x (sorted_desc xs)

  insert_desc-perm : (x : A) (xs : List A) → Perm (insert_desc x xs) (x ∷ xs)
  unfolding insert_desc
  insert_desc-perm x [] = Perm.rfl
  insert_desc-perm x (y ∷ ys) = elim (Bool-cases (key_lt x y)) [
    | inl lt ↦ rw lt (Perm.trans (Perm.cons y (insert_desc-perm x ys)) (Perm.swap x y ys))
    | inr ge ↦ rw ge Perm.rfl
  ]

  pub sorted_desc-perm : (xs : List A) → Perm (sorted_desc xs) xs
  unfolding sorted_desc
  sorted_desc-perm [] = Perm.rfl
  sorted_desc-perm (x ∷ xs) =
      Perm.trans (insert_desc-perm x (sorted_desc xs)) (Perm.cons x (sorted_desc-perm xs))

  nonempty-insert_desc : (x : A) (xs : List A) → nonempty (insert_desc x xs) ≡ true
  unfolding insert_desc
  nonempty-insert_desc x [] = refl
  nonempty-insert_desc x (y ∷ ys) = ground arith

  pub nonempty-sorted_desc : (xs : List A) → nonempty (sorted_desc xs) ≡ nonempty xs
  unfolding sorted_desc
  nonempty-sorted_desc [] = refl
  nonempty-sorted_desc (x ∷ xs) = nonempty-insert_desc x (sorted_desc xs)

  -- The order by one number that the keys respect.
  module _ (measure : A → ℕ) (lt→le : (x y : A) → key_lt x y ≡ true → measure x ≤ measure y)
      (ge→le : (x y : A) → key_lt x y ≡ false → measure y ≤ measure x) where
    All-insert_desc :
        (n : ℕ) (x : A) (xs : List A)
        → measure x ≤ n
        → All (λ y. measure y ≤ n) xs
        → All (λ y. measure y ≤ n) (insert_desc x xs)
    unfolding insert_desc
    All-insert_desc n x [] h a = (h, tt)
    All-insert_desc n x (y ∷ ys) h a = elim (Bool-cases (key_lt x y)) [
      | inl lt ↦ rw lt (a.0, All-insert_desc n x ys h a.1)
      | inr ge ↦ rw ge (h, a)
    ]

    All-le :
        (m n : ℕ) (xs : List A) → m ≤ n → All (λ y. measure y ≤ m) xs → All (λ y. measure y ≤ n) xs
    All-le m n [] h a = tt
    All-le m n (x ∷ xs) h a = (le_trans a.0 h, All-le m n xs h a.1)

    insert_desc-Descending :
        (x : A) (xs : List A) → Descending measure xs → Descending measure (insert_desc x xs)
    unfolding insert_desc
    insert_desc-Descending x [] d = (tt, tt)
    insert_desc-Descending x (y ∷ ys) d = elim (Bool-cases (key_lt x y)) [
      | inl lt ↦
          rw lt
            (All-insert_desc (measure y) x ys (lt→le x y lt) d.0, insert_desc-Descending x ys d.1)
      | inr ge ↦ let h = ge→le x y ge in rw ge ((h, All-le (measure y) (measure x) ys h d.0), d)
    ]

    pub sorted_desc-Descending : (xs : List A) → Descending measure (sorted_desc xs)
    unfolding sorted_desc
    sorted_desc-Descending [] = tt
    sorted_desc-Descending (x ∷ xs) = insert_desc-Descending x _ (sorted_desc-Descending xs)
