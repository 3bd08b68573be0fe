-- ===== src/Services/ThirdParty/Confirm/Names.antt =====
-- The warehouses that a confirmation finds or creates: every name of a valid item has one.
use restock_system.Common.{
  Text, List, elem, keys, ◌≡◌, true, Bool-cases, for_each, inl, ◌∷◌, ◌==◌, inr, elem-keys-put,
  subst, none, text_eq, ◌∙◌, arith, [],
}
use restock_system.Services.ThirdParty.Confirm.{Known, add_warehouse}

add_warehouse-keeps :
    (name n : Text) (known : Known)
    → elem name (keys known.by_name) ≡ true
    → elem name (keys (add_warehouse n known).by_name) ≡ true
add_warehouse-keeps name n known h = elim (Bool-cases (elem n (keys known.by_name))) [
  | inl q ↦ rw q h
  | inr q ↦ rw q (
      elem-keys-put n name (record { id = known.next_id; name = n; country = none }) known.by_name
      ∙ ground (arith, h))
]

add_warehouse-found :
    (n : Text) (known : Known) → elem n (keys (add_warehouse n known).by_name) ≡ true
add_warehouse-found n known = elim (Bool-cases (elem n (keys known.by_name))) [
  | inl q ↦ rw q q
  | inr q ↦ rw q (
      elem-keys-put n n (record { id = known.next_id; name = n; country = none }) known.by_name
      ∙ ground (arith, text_eq.same_iff n n))
]

elem-keys-for_each :
    (name : Text) (names : List Text) (known : Known)
    → elem name (keys known.by_name) ≡ true
    → elem name (keys (for_each add_warehouse names known).by_name) ≡ true
elem-keys-for_each name [] known h = h
elem-keys-for_each name (n ∷ names) known h =
    elem-keys-for_each name names (add_warehouse n known) (add_warehouse-keeps name n known h)

pub known_warehouses-found :
    (name : Text) (names : List Text) (known : Known)
    → elem name names ≡ true
    → elem name (keys (for_each add_warehouse names known).by_name) ≡ true
known_warehouses-found name [] known h = cc
known_warehouses-found name (n ∷ names) known h = elim (Bool-cases (n == name)) [
  | inl q ↦ elem-keys-for_each name names (add_warehouse n known) (
      subst (λ m. elem m (keys (add_warehouse n known).by_name) ≡ true)
        ((text_eq.same_iff n name).0 q) (add_warehouse-found n known))
  | inr q ↦ known_warehouses-found name names (add_warehouse n known) (ground (arith, h, q))
]
