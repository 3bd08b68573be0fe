-- ===== src/Services/ThirdParty/Steps/CurrentRows.antt =====
-- The rows of the current stock behind the statements that write them.
use restock_system.Common.{
  List, ℕ, map, Dict, Text, elem, IsDistinct, ◌≡◌, ◌<◌, ◌+◌, true, false, ◌∷◌, length, Bool-cases,
  ◌==◌, keys, arith, suc, ◌≤◌, ◌||◌, inl, ap, nat_beq_iff, All, stock_key_eq, subst, nat_eq, inr,
  ◌∙◌, sym, [], refl,
}
use restock_system.Services.ThirdParty.{CurrentItem}
use restock_system.Services.ThirdParty.Current.{
  stock_keys_of, update_at, set_current, stock_key_of, others_of,
}
use restock_system.Services.ThirdParty.Confirm.{Amounts, imported_item}
use restock_system.Services.ThirdParty.Import.{numbered}

abbrev pub current_ids : List CurrentItem → List ℕ
current_ids = map (λ (row : CurrentItem). row.id)

-- The rows of a bulk insert
pub keys-numbered :
    (batch_id n : ℕ) (entries : Dict (ℕ × Text) Amounts)
    → stock_keys_of (numbered (imported_item batch_id) n entries) ≡ keys entries
keys-numbered batch_id n [] = refl
keys-numbered batch_id n ((key, amounts) ∷ entries) =
    ap (λ ks. key ∷ ks) (keys-numbered batch_id (suc n) entries)

ids-numbered_below :
    (batch_id i n : ℕ) (entries : Dict (ℕ × Text) Amounts)
    → i < n
    → elem i (current_ids (numbered (imported_item batch_id) n entries)) ≡ false
ids-numbered_below batch_id i n [] h = refl
ids-numbered_below batch_id i n (entry ∷ entries) h =
    ground (arith, nat_beq_iff n i, ids-numbered_below batch_id i (suc n) entries, h)

pub ids-numbered-IsDistinct :
    (batch_id n : ℕ) (entries : Dict (ℕ × Text) Amounts)
    → IsDistinct (current_ids (numbered (imported_item batch_id) n entries))
ids-numbered-IsDistinct batch_id n [] = tt
ids-numbered-IsDistinct batch_id n (entry ∷ entries) = (
  ids-numbered_below batch_id n (suc n) entries (omega arith),
  ids-numbered-IsDistinct batch_id (suc n) entries,
)

pub ids-numbered-fresh :
    (batch_id n m : ℕ) (entries : Dict (ℕ × Text) Amounts)
    → n + length entries ≤ m
    → All (λ i. i < m) (current_ids (numbered (imported_item batch_id) n entries))
ids-numbered-fresh batch_id n m [] h = tt
ids-numbered-fresh batch_id n m (entry ∷ entries) h =
    (omega (arith, h), ids-numbered-fresh batch_id (suc n) m entries (omega (arith, h)))

module _ (new : CurrentItem) where
  -- The update of a conflict keeps every key and every id.
  pub keys-update_at :
      (rows : List CurrentItem) → stock_keys_of (update_at new rows) ≡ stock_keys_of rows
  keys-update_at [] = refl
  keys-update_at (row ∷ rows) = elim (Bool-cases (stock_key_of row == stock_key_of new)) [
    | inl q ↦ rw q (
        ap (λ ks. stock_key_of new ∷ ks) (keys-update_at rows)
        ∙ ap (λ k. k ∷ stock_keys_of rows)
            (sym ((stock_key_eq.same_iff (stock_key_of row) (stock_key_of new)).0 q)))
    | inr q ↦ rw q (ap (λ ks. stock_key_of row ∷ ks) (keys-update_at rows))
  ]

  pub ids-update_at :
      (rows : List CurrentItem) → current_ids (update_at new rows) ≡ current_ids rows
  ids-update_at [] = refl
  ids-update_at (row ∷ rows) = elim (Bool-cases (stock_key_of row == stock_key_of new)) [
    | inl q ↦ rw q (ap (λ is. row.id ∷ is) (ids-update_at rows))
    | inr q ↦ rw q (ap (λ is. row.id ∷ is) (ids-update_at rows))
  ]

  pub ids-set_current :
      (rows : List CurrentItem) → current_ids (set_current new rows) ≡ current_ids rows
  ids-set_current [] = refl
  ids-set_current (row ∷ rows) = elim (Bool-cases (row.id == new.id)) [
    | inl q ↦ rw q (
        ap (λ is. new.id ∷ is) (ids-set_current rows)
        ∙ ap (λ i. i ∷ current_ids rows) (sym ((nat_beq_iff row.id new.id).0 q)))
    | inr q ↦ rw q (ap (λ is. row.id ∷ is) (ids-set_current rows))
  ]

  -- A key behind the update is the new one or one of another row.
  elem-set_current :
      (key : ℕ × Text) (rows : List CurrentItem)
      → elem key (stock_keys_of (set_current new rows)) ≡ true
      → (stock_key_of new == key || elem key (stock_keys_of (others_of new.id rows))) ≡ true
  elem-set_current key [] h = cc
  elem-set_current key (row ∷ rows) h = elim (Bool-cases (row.id == new.id)) [
    | inl q ↦ rw q (ground (arith, elem-set_current key rows, rw q at h))
    | inr q ↦ rw q (ground (arith, elem-set_current key rows, rw q at h))
  ]

  elem-others :
      (key : ℕ × Text) (rows : List CurrentItem)
      → elem key (stock_keys_of rows) ≡ false
      → elem key (stock_keys_of (others_of new.id rows)) ≡ false
  elem-others key [] h = refl
  elem-others key (row ∷ rows) h = elim (Bool-cases (row.id == new.id)) [
    | inl q ↦ rw q (elem-others key rows (ground (arith, h)))
    | inr q ↦ rw q (ground (arith, elem-others key rows, h))
  ]

  -- No row has the id: nothing is written.
  set_current-absent :
      (rows : List CurrentItem)
      → elem new.id (current_ids rows) ≡ false
      → (set_current new rows ≡ rows) × (others_of new.id rows ≡ rows)
  set_current-absent [] h = (refl, refl)
  set_current-absent (row ∷ rows) h =
      let q : (row.id == new.id) ≡ false = ground (arith, h) in
      let rest = set_current-absent rows (ground (arith, h)) in
      (rw q (ap (λ rs. row ∷ rs) rest.0), rw q (ap (λ rs. row ∷ rs) rest.1))

  kept_key :
      (row : CurrentItem) (rows : List CurrentItem)
      → elem (stock_key_of row) (stock_keys_of rows) ≡ false
      → (stock_key_of row == stock_key_of new) ≡ false
      → elem (stock_key_of row) (stock_keys_of (set_current new rows)) ≡ false
  kept_key row rows apart differs =
      elim (Bool-cases (elem (stock_key_of row) (stock_keys_of (set_current new rows)))) [
        | inl there ↦ ground (
          arith,
          elem-set_current (stock_key_of row) rows there,
          elem-others (stock_key_of row) rows apart,
          stock_key_eq.same_iff (stock_key_of row) (stock_key_of new),
          stock_key_eq.same_iff (stock_key_of new) (stock_key_of row),
          differs,
        )
        | inr absent ↦ absent
      ]

  pub set_current-IsDistinct :
      (rows : List CurrentItem)
      → IsDistinct (current_ids rows)
      → elem (stock_key_of new) (stock_keys_of (others_of new.id rows)) ≡ false
      → IsDistinct (stock_keys_of rows)
      → IsDistinct (stock_keys_of (set_current new rows))
  set_current-IsDistinct [] d free k = tt
  set_current-IsDistinct (row ∷ rows) d free k = elim (Bool-cases (row.id == new.id)) [
    | inl q ↦
        let absent : elem new.id (current_ids rows) ≡ false =
          subst (λ i. elem i (current_ids rows) ≡ false) ((nat_beq_iff row.id new.id).0 q) d.0 in
        let same = set_current-absent rows absent in
        let free_below = rw q at free in
        rw (q, same.0)
          (ap (λ rs. elem (stock_key_of new) (stock_keys_of rs)) (sym same.1) ∙ free_below, k.1)
    | inr q ↦
        let free_below = rw q at free in
        rw q (
          kept_key row rows k.0 (ground (arith, free_below)),
          set_current-IsDistinct rows d.1 (ground (arith, free_below)) k.1,
        )
  ]
