-- ===== src/Services/OrderEdit.antt =====
-- The fields of an order that can be edited, and the choice of them (`parse_requested_fields` in
-- backend/app/services/order_edit.py). `str.lower` is a parameter, as the tables of Unicode are.
mod Tests
pub mod RoundTrip
pub mod Normalize
pub mod Workbook
pub mod Apply
use restock_system.Common.{
  Text, codes, List, Option, ◌∷◌, none, [], some, if◌then◌else◌, map, ◌==◌, leb, ◌++◌, is_nil, ◌&&◌,
  true, text_eq, elem, add_member, false,
}
use restock_system.Common.Strings.{Unicode, strip, split}
use restock_system.Services.Errors.{Reply, answered, refused, validation_failed}

pub data FieldKind : Type 0 where
  country_kind text_kind : FieldKind

pub record EditableField : Type 0 where
  pub key : Text
  pub label : Text
  pub model_field : Text
  pub kind : FieldKind

abbrev pub country_field : EditableField
country_field = record {
  key = codes "country_code";
  label = codes "国家";
  model_field = codes "country_code";
  kind = country_kind;
}

abbrev pub postal_field : EditableField
postal_field = record {
  key = codes "postal_code";
  label = codes "邮编";
  model_field = codes "postal_code";
  kind = text_kind;
}

abbrev pub editable_fields : List EditableField
editable_fields = country_field ∷ postal_field ∷ []

-- `FIELD_BY_KEY.get` and `FIELD_BY_LABEL.get`
abbrev pub field_by : (EditableField → Text) → Text → List EditableField → Option EditableField
field_by name_of t [] = none
field_by name_of t (field ∷ fields) =
    if name_of field == t then some field else field_by name_of t fields

-- `re.sub(r"(?<!^)(?=[A-Z])", "_", t)`, behind the first character
abbrev pub underscored : Text → Text
underscored [] = []
underscored (c ∷ cs) =
    let rest = underscored cs in if leb b'A' c && leb c b'Z' then b'_' ∷ c ∷ rest else c ∷ rest

abbrev pub snake_of : Text → Text
snake_of [] = []
snake_of (c ∷ cs) = c ∷ underscored cs

abbrev pub or_else {ℓ} : {A : Type ℓ} → Option A → Option A → Option A
or_else none other = other
or_else (some a) other = some a

pub data RawFields : Type 0 where
  no_fields : RawFields
  one_text : Text → RawFields
  many_texts : List Text → RawFields

abbrev pub split_all : List Text → List Text
split_all [] = []
split_all (t ∷ ts) = split b',' t ++ split_all ts

module _ (u : Unicode) (lower : Text → Text) where
  unfoldable pub parts_of : RawFields → List Text
  parts_of no_fields = []
  parts_of (one_text t) = map (strip u) (split b',' t)
  parts_of (many_texts ts) = map (strip u) (split_all ts)

  unfoldable pub requested_field : Text → Option EditableField
  requested_field part =
      let normalized = strip u part in
      or_else (field_by (λ f. f.key) normalized editable_fields) (
        or_else (field_by (λ f. f.label) normalized editable_fields)
          (field_by (λ f. f.key) (lower (snake_of normalized)) editable_fields))

  -- The loop over the parts, with the fields so far and the set of their keys
  unfoldable pub select_fields :
      List Text → List EditableField → List Text → Reply (List EditableField)
  select_fields [] fields seen = answered fields
  select_fields (part ∷ parts) fields seen = elim (is_nil part) [
    | true ↦ select_fields parts fields seen
    | false ↦ elim (requested_field part) [
      | none ↦ refused validation_failed
      | some field ↦ elim (elem field.key seen) [
        | true ↦ refused validation_failed
        | false ↦ select_fields parts (fields ++ field ∷ []) (add_member field.key seen)
      ]
    ]
  ]

  abbrev pub not_empty : Reply (List EditableField) → Reply (List EditableField)
  not_empty (refused e) = refused e
  not_empty (answered fields) = if is_nil fields then refused validation_failed else answered fields

  unfoldable pub parse_requested_fields : RawFields → Reply (List EditableField)
  parse_requested_fields raw_fields = not_empty (select_fields (parts_of raw_fields) [] [])
