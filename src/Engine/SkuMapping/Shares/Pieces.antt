-- ===== src/Engine/SkuMapping/Shares/Pieces.antt =====
-- The lists of pieces behind the shares of a component: pieces added one by one, and their dictionary.
use restock_system.Common.{
  ℕ, Text, List, Dict, length, ◌<◌, elem, ◌++◌, ◌≡◌, ◌≤◌, if◌then◌else◌, keys, ◌∷◌, [], IsDistinct,
  min, map, ◌+◌, suc, ap, arith, false, AreApart, values, refl, put, zero, Bool-cases, sym,
  AreApart-nil, ◌==◌, AreApart-put, text_eq, ◌∙◌, inl, inr,
}
use restock_system.Common.Int.{
  ℤ, ◌+ℤ◌, leb_ℤ, pos, int_laws, pos_part, ◌≤ℤ◌, +ℤ_parts, ◌-ℤ◌, eq_of_parts, -ℤ_parts,
}
use restock_system.Engine.Total.{sum_ℤ}
use restock_system.Engine.SkuMapping.Shares.{bump, pair_up_from, pair_up}

pub length-bump : (i : ℕ) (xs : List ℤ) → length (bump i xs) ≡ length xs
length-bump i [] = refl
length-bump zero (x ∷ xs) = refl
length-bump (suc i) (x ∷ xs) = ap suc (length-bump i xs)

pub sum_ℤ-bump : (i : ℕ) (xs : List ℤ) → i < length xs → sum_ℤ (bump i xs) ≡ sum_ℤ xs +ℤ pos 1
sum_ℤ-bump i [] h = ground arith
sum_ℤ-bump zero (x ∷ xs) h = grind int_laws
sum_ℤ-bump (suc i) (x ∷ xs) h =
    let rest = sum_ℤ-bump i xs (omega (arith, h)) in grind (int_laws, rest)

values-put_new {ℓ} :
    {A : Type ℓ} (k : Text) (v : A) (d : Dict Text A)
    → elem k (keys d) ≡ false
    → values (put k v d) ≡ values d ++ v ∷ []
values-put_new k v [] h = refl
values-put_new k v ((j, w) ∷ d) h = elim (Bool-cases (j == k)) [
  | inl q ↦ ground (arith, h, q, text_eq.same_iff j k, text_eq.same_iff k j)
  | inr q ↦ rw q (ap (λ vs. w ∷ vs) (values-put_new k v d (ground (arith, h))))
]

snoc-append {ℓ} :
    {A : Type ℓ} (xs : List A) (x : A) (ys : List A) → (xs ++ x ∷ []) ++ ys ≡ xs ++ x ∷ ys
snoc-append [] x ys = refl
snoc-append (y ∷ xs) x ys = ap (λ zs. y ∷ zs) (snoc-append xs x ys)

append_nil {ℓ} : {A : Type ℓ} (xs : List A) → xs ++ [] ≡ xs
append_nil [] = refl
append_nil (x ∷ xs) = ap (λ ys. x ∷ ys) (append_nil xs)

-- Keys that are distinct keep all values.
values-pair_up_from {ℓ} :
    {A : Type ℓ} (d : Dict Text A) (cs : List Text) (ns : List A)
    → length ns ≡ length cs
    → IsDistinct cs
    → AreApart (keys d) cs
    → values (pair_up_from d cs ns) ≡ values d ++ ns
values-pair_up_from d [] [] h u a = sym (append_nil (values d))
values-pair_up_from d [] (n ∷ ns) h u a = ground arith
values-pair_up_from d (c ∷ cs) [] h u a = ground arith
values-pair_up_from d (c ∷ cs) (n ∷ ns) h u a =
    values-pair_up_from (put c n d) cs ns (omega (arith, h)) u.1 (AreApart-put c n d cs u.0 a.1)
    ∙ ap (λ vs. vs ++ ns) (values-put_new c n d a.0)
    ∙ snoc-append (values d) n ns

pub values-pair_up {ℓ} :
    {A : Type ℓ} (cs : List Text) (ns : List A)
    → length ns ≡ length cs
    → IsDistinct cs
    → values (pair_up cs ns) ≡ ns
values-pair_up cs ns h u = values-pair_up_from [] cs ns h u (AreApart-nil cs)

-- Handing out one by one what is left, at most once to each of n, reaches the total.
pub fill_up :
    (s total : ℤ) (n m k : ℕ)
    → k ≡ min (pos_part (total -ℤ s)) m
    → m ≡ n
    → pos 0 ≤ℤ total -ℤ s
    → total -ℤ s ≤ℤ pos n
    → s +ℤ pos k ≡ total
fill_up s total n m k count same low high =
    let there = -ℤ_parts total s in
    let back = +ℤ_parts s (pos k) in
    let meet = eq_of_parts (s +ℤ pos k) total in ground (arith, there, back, meet)

pub sum_ℤ-zeros : (cs : List Text) → sum_ℤ (map (λ c. pos 0) cs) ≡ pos 0
unfolding ◌+ℤ◌
sum_ℤ-zeros [] = refl
sum_ℤ-zeros (c ∷ cs) = rw (sum_ℤ-zeros cs) refl

-- What is left of the total is at least nothing, and at most one for each.
pub few_left :
    (n k m : ℕ) → k ≤ n → n ≤ k + m → (pos 0 ≤ℤ pos n -ℤ pos k) × (pos n -ℤ pos k ≤ℤ pos m)
few_left n k m low high =
    let there = -ℤ_parts (pos n) (pos k) in
    (ground (arith, there, low), ground (arith, there, high))

pub only_share : (n : ℕ) → (if leb_ℤ (pos n) (pos 0) then pos 0 else pos n) +ℤ pos 0 ≡ pos n
only_share n = grind int_laws

pub above_zero : (n : ℕ) → leb_ℤ (pos (suc n)) (pos 0) ≡ false
above_zero n = ground arith

pub pos-add : (k m : ℕ) → pos k +ℤ pos m ≡ pos (k + m)
pos-add k m =
    let parts = +ℤ_parts (pos k) (pos m) in
    let meet = eq_of_parts (pos k +ℤ pos m) (pos (k + m)) in ground (arith, parts, meet)
