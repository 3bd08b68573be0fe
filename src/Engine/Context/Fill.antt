-- ===== src/Engine/Context/Fill.antt =====
-- What the loops of the steps leave under a sku and a country.
use restock_system.Engine.Context.{BySku, at, fill_countries, write_at, fill_from}
use restock_system.Common.{
  Text, Option, some, ◌≡◌, Dict, if◌then◌else◌, ◌==◌, elem, IsDistinct, ◌&&◌, false, keys, arith,
  ap, get, text_eq, sym, get-put, some_inj, put, get_or, [], All, ◌∷◌, none, values, Option-cases,
  Bool-cases, inl, inr, ◌∙◌, ==_refl, refl, ◌≢◌,
}

-- A dictionary of dictionaries has each sku once, and each country of a sku once.
abbrev pub IsTable {ℓ} : {A : Type ℓ} → BySku A → Type 0
IsTable m = IsDistinct (keys m) × All (λ d. IsDistinct (keys d)) (values m)

pub at-write_at {ℓ} :
    {A : Type ℓ} (sku country s c : Text) (o : Option A) (m : BySku A)
    → at s c (write_at sku country o m) ≡ (
        if sku == s && country == c then elim o [ none ↦ at s c m | some v ↦ some v ] else at s c m)
at-write_at sku country s c none m = ground arith
at-write_at sku country s c (some v) m = ground (
  arith,
  text_eq.same_iff sku s,
  get-put sku s (put country v (get_or sku m [])) m,
  get-put country c v (get_or sku m []),
)

module _ {ℓ κ} {A : Type ℓ} {B : Type κ} (f : Text → Text → A → Option (Option B)) where
  -- What stands under a sku and a country behind the loop, of the value that the loop read there, if
  -- any, and of what stood there before.
  abbrev pub written : Text → Text → Option A → Option B → Option B
  written sku country none before = before
  written sku country (some v) before = elim (f sku country v) [
    | none ↦ before
    | some o ↦ elim o [ none ↦ before | some value ↦ some value ]
  ]

  fill_countries-untouched :
      (sku s c : Text) (cm : Dict Text A) (result : BySku B) {next : BySku B}
      → (sku == s && elem c (keys cm)) ≡ false
      → fill_countries f sku cm result ≡ some next
      → at s c next ≡ at s c result
  unfolding fill_countries
  fill_countries-untouched sku s c [] result ne h = ap (at s c) (sym (some_inj h))
  fill_countries-untouched sku s c ((country, v) ∷ cm) result {next} ne h =
      elim (Option-cases (f sku country v)) [
        | inl e ↦ ground (arith, e, h)
        | inr (o, e) ↦
            fill_countries-untouched sku s c cm (write_at sku country o result) (ground (arith, ne))
              (rw (e, fill_countries) at h)
            ∙ (at-write_at sku country s c o result ∙ ground (arith, ne))
      ]

  fill_countries-at :
      (sku c : Text) (cm : Dict Text A) (result : BySku B) {next : BySku B}
      → IsDistinct (keys cm)
      → fill_countries f sku cm result ≡ some next
      → at sku c next ≡ written sku c (get c cm) (at sku c result)
  unfolding fill_countries
  fill_countries-at sku c [] result d h = ap (at sku c) (sym (some_inj h))
  fill_countries-at sku c ((country, v) ∷ cm) result {next} d h =
      elim (Option-cases (f sku country v)) [
        | inl e ↦ ground (arith, e, h)
        | inr (o, e) ↦
            let rest = rw (e, fill_countries) at h in
            elim (Bool-cases (country == c)) [
              | inl here ↦
                  let same : country ≡ c = (text_eq.same_iff country c).0 here in
                  let read : f sku c v ≡ some o = rw same at e in
                  let absent : elem c (keys cm) ≡ false = rw same at d.0 in
                  fill_countries-untouched sku sku c cm (write_at sku country o result)
                    (rw absent (ground arith)) rest
                  ∙ (at-write_at sku country sku c o result ∙ rw (here, ==_refl sku, read) refl)
              | inr away ↦
                  let kept : at sku c (write_at sku country o result) ≡ at sku c result =
                    at-write_at sku country sku c o result ∙ ground (arith, away) in
                  fill_countries-at sku c cm (write_at sku country o result) d.1 rest
                  ∙ rw (away, kept) refl
            ]
      ]

  fill_from-untouched :
      (s c : Text) (m : BySku A) (result : BySku B) {final : BySku B}
      → elem s (keys m) ≡ false
      → fill_from f m result ≡ some final
      → at s c final ≡ at s c result
  unfolding fill_from
  fill_from-untouched s c [] result a h = ap (at s c) (sym (some_inj h))
  fill_from-untouched s c ((sku, cm) ∷ m) result {final} a h =
      elim (Option-cases (fill_countries f sku cm result)) [
        | inl e ↦ ground (arith, e, h)
        | inr (next, e) ↦
            fill_from-untouched s c m next (ground arith) (rw (e, fill_from) at h)
            ∙ fill_countries-untouched sku s c cm result (ground (arith, a)) e
      ]

  -- Behind the loops over a table, each sku and country has what the loop's body wrote for the value
  -- that the table has there.
  pub fill_from-at :
      (s c : Text) (m : BySku A) (result : BySku B) {final : BySku B}
      → IsTable m
      → fill_from f m result ≡ some final
      → at s c final ≡ written s c (at s c m) (at s c result)
  unfolding fill_from
  fill_from-at s c [] result d h = ap (at s c) (sym (some_inj h))
  fill_from-at s c ((sku, cm) ∷ m) result {final} d h =
      elim (Option-cases (fill_countries f sku cm result)) [
        | inl e ↦ ground (arith, e, h)
        | inr (next, e) ↦
            let rest = rw (e, fill_from) at h in
            elim (Bool-cases (sku == s)) [
              | inl here ↦
                  let same : sku ≡ s = (text_eq.same_iff sku s).0 here in
                  let absent : elem s (keys m) ≡ false = rw same at d.0.0 in
                  let filled : at s c next ≡ written s c (get c cm) (at s c result) =
                    rw same at (fill_countries-at sku c cm result d.1.0 e) in
                  fill_from-untouched s c m next absent rest ∙ (filled ∙ rw (here, at, get_or) refl)
              | inr away ↦
                  let kept : at s c next ≡ at s c result =
                    fill_countries-untouched sku s c cm result (rw away refl) e in
                  fill_from-at s c m next (d.0.1, d.1.1) rest ∙ rw (away, kept, at, get_or) refl
            ]
      ]

  fill_countries-total :
      (sku : Text) (cm : Dict Text A) (result : BySku B)
      → All (λ (country, v). f sku country v ≢ none) cm
      → fill_countries f sku cm result ≢ none
  unfolding fill_countries
  fill_countries-total sku [] result ok = λ q. cc
  fill_countries-total sku ((country, v) ∷ cm) result ok = elim (Option-cases (f sku country v)) [
    | inl e ↦ absurd (ok.0 e)
    | inr (o, e) ↦
        rw (e, fill_countries) (fill_countries-total sku cm (write_at sku country o result) ok.1)
  ]

  -- Loops whose body raises for no entry of the table do not raise.
  pub fill_from-total :
      (m : BySku A) (result : BySku B)
      → All (λ (sku, cm). All (λ (country, v). f sku country v ≢ none) cm) m
      → fill_from f m result ≢ none
  unfolding fill_from
  fill_from-total [] result ok = λ q. cc
  fill_from-total ((sku, cm) ∷ m) result ok = elim (Option-cases (fill_countries f sku cm result)) [
    | inl e ↦ absurd (fill_countries-total sku cm result ok.0 e)
    | inr (next, e) ↦ rw (e, fill_from) (fill_from-total m next ok.1)
  ]
