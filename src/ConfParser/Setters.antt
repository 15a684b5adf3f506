-- ===== src/ConfParser/Setters.antt =====
-- The setters for one value.
use hystack.Prelude.{ℕ, ◌≡◌, refl, true, none, List, [], ◌∷◌, ◌++◌, ◌==◌, length, arith}
use hystack.ConfParser.{flag, string, number, posted}

-- Without a post handler the three setters accept the same directives, those of two words; then
-- `string` appends the word to the value, and `number` leaves the value as it was.
pub number-string-flag :
    (args : List (List ℕ)) (name word : List ℕ) (value : ℕ) (text : List ℕ)
    → (number none args value ≡ (length args == 2, value))
      × ((string none args text).0 ≡ (length args == 2))
      × ((flag none args value).0 ≡ (length args == 2))
      × (string none (name ∷ word ∷ []) text ≡ (true, text ++ word))
unfolding number string flag posted
number-string-flag [] name word value text = (refl, refl, refl, refl)
number-string-flag (n ∷ []) name word value text = (refl, refl, refl, refl)
number-string-flag (n ∷ w ∷ []) name word value text = (refl, refl, refl, refl)
number-string-flag (n ∷ w ∷ x ∷ args) name word value text =
    (ground arith, ground arith, ground arith, refl)
