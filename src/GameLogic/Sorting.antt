-- ===== src/GameLogic/Sorting.antt =====
-- `sort.Slice`: the ascending order of the players' identifiers, which is the only one.
use mathlib.Core.Path.{ap₂}
use mathlib.Core.Logic.Or
use mathlib.Core.List.{Perm, Mem, mem-cons, mem-cons_self, not-mem-nil}
use mathlib.Core.List.Perm
use native.Mathlib.Bridge.{le_prop}
use netorcai.Prelude.{
  ℕ, ◌≤◌, ◌≡◌, sym, subst, List, [], ◌∷◌, map, All, arith, leb, Bool-cases, inl, inr,
}
use netorcai.GameLogic.{Numbered, insert_by_id, sort_by_id}

abbrev pub IsSorted : List ℕ → Type 0
IsSorted [] = Unit {0}
IsSorted (x ∷ xs) = All (λ y. x ≤ y) xs × IsSorted xs

All-mem : {x a : ℕ} (xs : List ℕ) → All (λ y. x ≤ y) xs → Mem a xs → x ≤ a
All-mem [] h m = absurd (not-mem-nil m)
All-mem (y ∷ ys) h m = Or.elim le_prop (mem-cons.0 m) (λ e. rw e h.0) (All-mem ys h.1)

IsSorted-head-le : (x a : ℕ) (xs : List ℕ) → IsSorted (x ∷ xs) → Mem a (x ∷ xs) → x ≤ a
IsSorted-head-le x a xs s m =
    Or.elim le_prop (mem-cons.0 m) (λ e. omega (arith, e)) (All-mem xs s.0)

-- A list has one ascending order.
pub IsSorted-unique : (xs ys : List ℕ) → IsSorted xs → IsSorted ys → Perm xs ys → xs ≡ ys
IsSorted-unique [] ys s t p = sym (Perm.eq-nil (Perm.symm p))
IsSorted-unique (x ∷ xs) [] s t p = Perm.eq-nil p
IsSorted-unique (x ∷ xs) (y ∷ ys) s t p =
    ap₂ ◌∷◌ heads (IsSorted-unique xs ys s.1 t.1 (Perm.cons_inv tails))
  where
    heads : x ≡ y
    heads =
        let le = IsSorted-head-le x y xs s (Perm.subset (Perm.symm p) y mem-cons_self) in
        let ge = IsSorted-head-le y x ys t (Perm.subset p x mem-cons_self) in omega arith

    tails : Perm (y ∷ xs) (y ∷ ys)
    tails = subst (λ z. Perm (z ∷ xs) (y ∷ ys)) heads p

abbrev pub ids : List Numbered → List ℕ
ids = map λ p. p.1

All-le_trans : (a b : ℕ) (xs : List ℕ) → a ≤ b → All (λ y. b ≤ y) xs → All (λ y. a ≤ y) xs
All-le_trans a b [] h k = tt
All-le_trans a b (x ∷ xs) h k = (omega arith, All-le_trans a b xs h k.1)

insert_by_id-Perm : (p : Numbered) (ps : List Numbered) → Perm (insert_by_id p ps) (p ∷ ps)
unfolding insert_by_id
insert_by_id-Perm p [] = Perm.rfl
insert_by_id-Perm p (q ∷ qs) = elim (Bool-cases (leb p.1 q.1)) [
  | inl le ↦ rw le Perm.rfl
  | inr gt ↦ rw gt (Perm.trans (Perm.cons q (insert_by_id-Perm p qs)) (Perm.swap p q qs))
]

pub sort_by_id-Perm : (ps : List Numbered) → Perm (sort_by_id ps) ps
unfolding sort_by_id
sort_by_id-Perm [] = Perm.rfl
sort_by_id-Perm (p ∷ ps) =
    Perm.trans (insert_by_id-Perm p (sort_by_id ps)) (Perm.cons p (sort_by_id-Perm ps))

All-insert_by_id :
    (a : ℕ) (p : Numbered) (ps : List Numbered)
    → a ≤ p.1
    → All (λ y. a ≤ y) (ids ps)
    → All (λ y. a ≤ y) (ids (insert_by_id p ps))
unfolding insert_by_id
All-insert_by_id a p [] h k = (h, tt)
All-insert_by_id a p (q ∷ qs) h k = ground (arith, All-insert_by_id a p qs h k.1)

insert_by_id-IsSorted :
    (p : Numbered) (ps : List Numbered) → IsSorted (ids ps) → IsSorted (ids (insert_by_id p ps))
unfolding insert_by_id
insert_by_id-IsSorted p [] s = (tt, tt)
insert_by_id-IsSorted p (q ∷ qs) s = ground (
  arith,
  insert_by_id-IsSorted p qs s.1,
  All-insert_by_id q.1 p qs,
  All-le_trans p.1 q.1 (ids qs),
)

pub sort_by_id-IsSorted : (ps : List Numbered) → IsSorted (ids (sort_by_id ps))
unfolding sort_by_id
sort_by_id-IsSorted [] = tt
sort_by_id-IsSorted (p ∷ ps) = insert_by_id-IsSorted p (sort_by_id ps) (sort_by_id-IsSorted ps)
