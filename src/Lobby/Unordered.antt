-- ===== src/Lobby/Unordered.antt =====
-- The clients of one role up to their order: a departure moves the last entry of the list in control.go,
-- and nothing depends on where an entry stands.
use mathlib.Core.Logic.{∥∥₁_elim}
use mathlib.Core.List.{Perm, Permᴰ, perm_append_singleton}
use mathlib.Core.List.Perm
use mathlib.Core.Quot
use mathlib.Core.Quot.{Quot, Quot-set}
use native.Mathlib.Nat.{ℕ_set}
use netorcai.Prelude.{ℕ, suc, ◌≡◌, refl, ap, List, [], ◌∷◌, ◌++◌, length, arith}
use netorcai.State.{ClientId}

abbrev pub Bag : Type 0
Bag = Quot (Perm {A = ClientId})

abbrev pub of_list : List ClientId → Bag
of_list = Quot.mk

Permᴰ-length : (xs ys : List ClientId) → Permᴰ xs ys → length xs ≡ length ys
Permᴰ-length _ _ Permᴰ.nil = refl
Permᴰ-length _ _ (Permᴰ.cons {a = a} {b = b} {l₁ = xs} {l₂ = ys} e p) =
    ap suc (Permᴰ-length xs ys p)
Permᴰ-length _ _ (Permᴰ.swap e e') = refl
Permᴰ-length _ _ (Permᴰ.trans {l₁ = xs} {l₂ = ys} {l₃ = zs} p q) =
    omega (arith, Permᴰ-length xs ys p, Permᴰ-length ys zs q)

Perm-length : (xs ys : List ClientId) → Perm xs ys → length xs ≡ length ys
Perm-length xs ys p = ∥∥₁_elim p (ℕ_set _ _) (Permᴰ-length xs ys)

pub size : Bag → ℕ
size = Quot.lift ℕ_set length Perm-length

pub put : ClientId → Bag → Bag
put c = Quot.lift Quot-set (λ xs. of_list (c ∷ xs)) (λ xs ys p. Quot.sound (Perm.cons c p))

pub size-of_list : (xs : List ClientId) → size (of_list xs) ≡ length xs
unfolding size
size-of_list xs = refl

pub put-of_list : (c : ClientId) (xs : List ClientId) → put c (of_list xs) ≡ of_list (c ∷ xs)
unfolding put
put-of_list c xs = refl

-- A client at the end of the list is as good as one in front.
pub of_list-append :
    (xs : List ClientId) (c : ClientId) → of_list (xs ++ (c ∷ [])) ≡ put c (of_list xs)
unfolding put
of_list-append xs c = Quot.sound (perm_append_singleton c xs)

pub put_comm : (c d : ClientId) (b : Bag) → put c (put d b) ≡ put d (put c b)
unfolding put
put_comm c d = Quot.ind (λ b. Quot-set _ _) (λ xs. Quot.sound (Perm.swap d c xs))
