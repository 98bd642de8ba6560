-- ===== src/Client/Assertions.antt =====
-- featureflip.go: the type assertions of the typed accessors.
use featureflip_go.Base.{ℕ, ◌≡◌, refl, sym, ap, Bool, some, some_eq, none-ne-some, Text}
use featureflip_go.Models.{Value}
use featureflip_go.Client.Accessors.{bool_type, text_type, float64_type}
use featureflip_go.Client.Reads.{IsAssertion}

pub bool_type-IsAssertion : IsAssertion bool_type
bool_type-IsAssertion = record { sound = sound; complete = λ t. refl }
  where
    sound : (v : Value) (t : Bool) → bool_type.assert v ≡ some t → bool_type.wrap t ≡ v
    sound (Value.bool b) t h = ap Value.bool (sym (some_eq h))
    sound _ t h = absurd (none-ne-some h)

pub text_type-IsAssertion : IsAssertion text_type
text_type-IsAssertion = record { sound = sound; complete = λ t. refl }
  where
    sound : (v : Value) (t : Text) → text_type.assert v ≡ some t → text_type.wrap t ≡ v
    sound (Value.text s) t h = ap Value.text (sym (some_eq h))
    sound _ t h = absurd (none-ne-some h)

pub float64_type-IsAssertion : IsAssertion float64_type
float64_type-IsAssertion = record { sound = sound; complete = λ t. refl }
  where
    sound : (v : Value) (t : ℕ) → float64_type.assert v ≡ some t → float64_type.wrap t ≡ v
    sound (Value.float64 x) t h = ap Value.float64 (sym (some_eq h))
    sound _ t h = absurd (none-ne-some h)
