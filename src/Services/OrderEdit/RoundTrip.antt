-- ===== src/Services/OrderEdit/RoundTrip.antt =====
-- A list of fields, written with commas and read back (`parse_requested_fields`).
use mathlib.Core.List.{reverse, reverse-cons, reverse-reverse, append-nil}
use restock_system.Common.{
  ℕ, List, Bool, Text, elem, ◌++◌, ◌≡◌, All, if◌then◌else◌, map, is_nil, Option, inl, false, ◌∷◌,
  some, IsDistinct, inr, ==_refl, [], All-snoc, ◌⊎◌, ◌==◌, nat_eq, arith, ◌∙◌, ap, refl, text_eq,
  add_member, true, All-map_to, elem-add_member, All-both, All-of,
}
use restock_system.Common.Strings.{split, join, Unicode, strip, lstrip}
use restock_system.Services.OrderEdit.{
  EditableField, requested_field, select_fields, country_field, or_else, field_by, postal_field,
  editable_fields, parse_requested_fields, parts_of, one_text, not_empty,
}
use restock_system.Services.Errors.{answered}

abbrev Lacks : ℕ → Text → Type 0
Lacks c t = elem c t ≡ false

split-append : (c : ℕ) (t rest : Text) → Lacks c t → split c (t ++ c ∷ rest) ≡ t ∷ split c rest
unfolding split
split-append c [] rest h = rw (==_refl c) refl
split-append c (x ∷ t) rest h =
    let differs : (x == c) ≡ false = ground (arith, h) in
    rw (differs, split-append c t rest (ground (arith, h))) refl

split-whole : (c : ℕ) (t : Text) → Lacks c t → split c t ≡ t ∷ []
unfolding split
split-whole c [] h = refl
split-whole c (x ∷ t) h =
    let differs : (x == c) ≡ false = ground (arith, h) in
    rw (differs, split-whole c t (ground (arith, h))) refl

-- Texts without the separator come back from `split` as `join` took them.
pub split-join :
    (c : ℕ) (t : Text) (ts : List Text)
    → All (Lacks c) (t ∷ ts)
    → split c (join (c ∷ []) (t ∷ ts)) ≡ t ∷ ts
unfolding join
split-join c t [] h = split-whole c t h.0
split-join c t (s ∷ ts) h =
    split-append c t (join (c ∷ []) (s ∷ ts)) h.0 ∙ ap (λ rest. t ∷ rest) (split-join c s ts h.1)

-- A text without spaces
abbrev pub IsPlain : Unicode → Text → Type 0
IsPlain u t = All (λ c. u.is_space c ≡ false) t

lstrip-IsPlain : (u : Unicode) (t : Text) → IsPlain u t → lstrip u t ≡ t
lstrip-IsPlain u [] h = refl
lstrip-IsPlain u (c ∷ t) h = rw h.0 refl

All-reverse : {A : Type 0} (P : A → Type 0) (xs : List A) → All P xs → All P (reverse xs)
All-reverse P [] h = tt
All-reverse P (x ∷ xs) h =
    rw (reverse-cons x xs) (All-snoc P (reverse xs) x (All-reverse P xs h.1) h.0)

strip-IsPlain : (u : Unicode) (t : Text) → IsPlain u t → strip u t ≡ t
unfolding strip
strip-IsPlain u t h =
    rw
      (
        lstrip-IsPlain u t h,
        lstrip-IsPlain u (reverse t) (All-reverse (λ c. u.is_space c ≡ false) t h),
      )
      (reverse-reverse t)

abbrev pub IsEditable : EditableField → Type 0
IsEditable field = (field ≡ country_field) ⊎ (field ≡ postal_field)

-- The label of a field, or its key
abbrev pub name_of : Bool → EditableField → Text
name_of by_label field = if by_label then field.label else field.key

abbrev pub keys_of_fields : List EditableField → List Text
keys_of_fields = map (λ (field : EditableField). field.key)

name_of-not_nil :
    (by_label : Bool) (field : EditableField)
    → IsEditable field
    → is_nil (name_of by_label field) ≡ false
name_of-not_nil true field (inl q) = rw q refl
name_of-not_nil true field (inr q) = rw q refl
name_of-not_nil false field (inl q) = rw q refl
name_of-not_nil false field (inr q) = rw q refl

name_of-Lacks :
    (by_label : Bool) (field : EditableField)
    → IsEditable field
    → Lacks b',' (name_of by_label field)
name_of-Lacks true field (inl q) = rw q refl
name_of-Lacks true field (inr q) = rw q refl
name_of-Lacks false field (inl q) = rw q refl
name_of-Lacks false field (inr q) = rw q refl

apart :
    (key : Text) (fields : List EditableField)
    → elem key (keys_of_fields fields) ≡ false
    → All (λ (field : EditableField). (key == field.key) ≡ false) fields
apart key [] h = tt
apart key (field ∷ fields) h = (
  ground (arith, text_eq.same_iff key field.key, text_eq.same_iff field.key key, h),
  apart key fields (ground (arith, h)),
)

looked_up :
    (by_label : Bool) (field : EditableField) (other : Option EditableField)
    → IsEditable field
    → or_else
        (field_by (λ f. f.key) (name_of by_label field) editable_fields)
        (or_else (field_by (λ f. f.label) (name_of by_label field) editable_fields) other)
      ≡ some field
looked_up true field other (inl q) = rw q refl
looked_up true field other (inr q) = rw q refl
looked_up false field other (inl q) = rw q refl
looked_up false field other (inr q) = rw q refl

append_shift {ℓ} :
    {A : Type ℓ} (xs : List A) (x : A) (ys : List A) → (xs ++ x ∷ []) ++ ys ≡ xs ++ x ∷ ys
append_shift [] x ys = refl
append_shift (y ∷ xs) x ys = ap (λ zs. y ∷ zs) (append_shift xs x ys)

module _ (u : Unicode) (lower : Text → Text) (by_label : Bool) where
  abbrev names : List EditableField → List Text
  names = map (name_of by_label)

  requested_name :
      (field : EditableField)
      → IsEditable field
      → IsPlain u (name_of by_label field)
      → requested_field u lower (name_of by_label field) ≡ some field
  unfolding requested_field
  requested_name field e plain =
      rw (strip-IsPlain u (name_of by_label field) plain) (looked_up by_label field _ e)

  select_fields-names :
      (rest fields : List EditableField) (seen : List Text)
      → All IsEditable rest
      → All (λ (field : EditableField). IsPlain u (name_of by_label field)) rest
      → IsDistinct (keys_of_fields rest)
      → All (λ (field : EditableField). elem field.key seen ≡ false) rest
      → select_fields u lower (names rest) fields seen ≡ answered (fields ++ rest)
  unfolding select_fields
  select_fields-names [] fields seen e plain d fresh = rw (append-nil fields) refl
  select_fields-names (field ∷ rest) fields seen e plain d fresh =
      rw
        (
          name_of-not_nil by_label field e.0,
          requested_name field e.0 plain.0,
          fresh.0,
          select_fields,
        )
        (select_fields-names rest (fields ++ field ∷ []) (add_member field.key seen) e.1 plain.1 d.1
            (All-map_to
              (λ (g : EditableField). ((field.key == g.key) ≡ false) × (elem g.key seen ≡ false))
              (λ (g : EditableField). elem g.key (add_member field.key seen) ≡ false) rest
              (λ g k. elem-add_member field.key g.key seen ∙ ground (arith, k))
              (All-both (λ (g : EditableField). (field.key == g.key) ≡ false)
                (λ (g : EditableField). elem g.key seen ≡ false) rest (apart field.key rest d.0)
                fresh.1))
          ∙ ap answered (append_shift fields field rest))

  strip-names :
      (fields : List EditableField)
      → All (λ (field : EditableField). IsPlain u (name_of by_label field)) fields
      → map (strip u) (names fields) ≡ names fields
  strip-names [] plain = refl
  strip-names (field ∷ fields) plain =
      ap (λ t. t ∷ map (strip u) (names fields)) (strip-IsPlain u (name_of by_label field) plain.0)
      ∙ ap (λ ts. name_of by_label field ∷ ts) (strip-names fields plain.1)

  names-Lacks :
      (fields : List EditableField) → All IsEditable fields → All (Lacks b',') (names fields)
  names-Lacks [] e = tt
  names-Lacks (field ∷ fields) e = (name_of-Lacks by_label field e.0, names-Lacks fields e.1)

  -- A choice of editable fields, at least one and each once, is read back from its labels, or from its
  -- keys, with commas between them, if none of these has a space.
  pub parse_requested_fields-join :
      (field : EditableField) (fields : List EditableField)
      → All IsEditable (field ∷ fields)
      → All (λ (f : EditableField). IsPlain u (name_of by_label f)) (field ∷ fields)
      → IsDistinct (keys_of_fields (field ∷ fields))
      → parse_requested_fields u lower
          (one_text (join (b',' ∷ []) (map (name_of by_label) (field ∷ fields))))
        ≡ answered (field ∷ fields)
  unfolding parse_requested_fields parts_of
  parse_requested_fields-join field fields e plain d =
      ap (λ ts. not_empty u lower (select_fields u lower (map (strip u) ts) [] []))
        (split-join b',' (name_of by_label field) (names fields) (names-Lacks (field ∷ fields) e))
      ∙ ap (λ ts. not_empty u lower (select_fields u lower ts [] []))
          (strip-names (field ∷ fields) plain)
      ∙ ap (not_empty u lower) (
          select_fields-names (field ∷ fields) [] [] e plain d
            (All-of (λ (f : EditableField). elem f.key [] ≡ false) (field ∷ fields) (λ f. refl)))
