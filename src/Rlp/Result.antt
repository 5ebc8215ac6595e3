-- ===== src/Rlp/Result.antt =====
-- `DecodingResult` and `Header` of core/silkworm/rlp. `ok` carries what kOk leaves in the output
-- arguments; after an error no caller reads them, nor the view.
-- `stuck` is no value of the source: a loop ran out of fuel, or the code goes outside of a buffer.
use silkworm.Common.{ℕ, ◌≡◌, refl, ap, ◌∙◌, Bool}

pub data DecodingResult : Type 0 where
  overflow leading_zero input_too_short non_canonical_single_byte : DecodingResult
  non_canonical_size unexpected_length unexpected_string unexpected_list : DecodingResult
  list_length_mismatch unsupported_eip2718_type : DecodingResult

pub data Result {ℓ} (V : Type ℓ) : Type ℓ where
  stuck : Result V
  err : DecodingResult → Result V
  ok : V → Result V

infixl 5 ◌>>=◌
abbrev pub ◌>>=◌ {ℓ κ} : {V : Type ℓ} {W : Type κ} → Result V → (V → Result W) → Result W
stuck >>= next = stuck
err code >>= next = err code
ok value >>= next = next value

pub >>=-eq-ok {ℓ κ} :
    {V : Type ℓ} {W : Type κ} (first : Result V) (next : V → Result W) {w : W}
    → (first >>= next) ≡ ok w
    → (v : V) × (first ≡ ok v) × (next v ≡ ok w)
>>=-eq-ok stuck next h = cc
>>=-eq-ok (err code) next h = cc
>>=-eq-ok (ok value) next h = (value, refl, h)

pub >>=-then {ℓ κ} :
    {V : Type ℓ} {W : Type κ} (first : Result V) (next : V → Result W) {v : V} {r : Result W}
    → first ≡ ok v
    → next v ≡ r
    → (first >>= next) ≡ r
>>=-then first next e h = ap (λ tried. tried >>= next) e ∙ h

pub record Header : Type 0 where
  pub list : Bool
  pub payload_length : ℕ
