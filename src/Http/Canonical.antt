-- ===== src/Http/Canonical.antt =====
-- Canonical header names.
use istio_forward_proxy.Base.{
  ℕ, Bool, true, [], ◌∷◌, Bytes, lower_byte, map, ◌≡◌, refl, sym, ◌∙◌, ap, arith, ◌==◌,
}
use istio_forward_proxy.Http.Header.{
  recase, capitalize, canonical_key, valid_field, valid_field_byte,
}

recase-lower : (b : Bool) (c d : ℕ) → lower_byte c ≡ lower_byte d → recase b c ≡ recase b d
recase-lower b c d h = ground arith

-- Names that differ in the case of letters have one canonical form.
pub capitalize-lower :
    (b : Bool) (s t : Bytes) → map lower_byte s ≡ map lower_byte t → capitalize b s ≡ capitalize b t
unfolding capitalize
capitalize-lower b [] [] h = refl
capitalize-lower b [] (d ∷ t) h = cc
capitalize-lower b (c ∷ s) [] h = cc
capitalize-lower b (c ∷ s) (d ∷ t) h =
    ground (arith, recase-lower b c d, capitalize-lower (recase b c == b'-') s t)

valid_of_lower : (c : ℕ) → valid_field_byte (lower_byte c) ≡ valid_field_byte c
unfolding valid_field_byte
valid_of_lower c = ground arith

valid_field_byte-lower :
    (c d : ℕ) → lower_byte c ≡ lower_byte d → valid_field_byte c ≡ valid_field_byte d
valid_field_byte-lower c d h = sym (valid_of_lower c) ∙ ap valid_field_byte h ∙ valid_of_lower d

valid_field-lower :
    (s t : Bytes) → map lower_byte s ≡ map lower_byte t → valid_field s ≡ valid_field t
unfolding valid_field
valid_field-lower [] [] h = refl
valid_field-lower [] (d ∷ t) h = cc
valid_field-lower (c ∷ s) [] h = cc
valid_field-lower (c ∷ s) (d ∷ t) h =
    ground (arith, valid_field_byte-lower c d, valid_field-lower s t)

-- Valid names have the same canonical form if they differ only in the case of letters.
pub canonical_key_case :
    (s t : Bytes)
    → valid_field s ≡ true
    → map lower_byte s ≡ map lower_byte t
    → canonical_key s ≡ canonical_key t
unfolding canonical_key
canonical_key_case s t v h = ground (arith, valid_field-lower s t h, capitalize-lower true s t h)
