-- ===== src/Http/Agent.antt =====
-- httpclient.go, userAgent: no configuration of a wrapper can break the header's form.
use featureflip_go.Base.{
  ℕ, ◌≡◌, refl, Bool, true, false, not, ◌&&◌, ◌||◌, [], ◌∷◌, ◌++◌, Text, codes, if◌then◌else◌, leb,
  ◌==◌, is_empty, is_digit, all, any, arith, if_rule, Bool-cases, inl, inr,
}

abbrev pub sdk_version : Text
sdk_version = codes "2.12.0"

-- The bytes of the character class of productToken.
unfoldable pub is_token_byte : ℕ → Bool
is_token_byte c =
    any (λ x. x == c) (codes "!#$%&'*+.^_`|~-")
    || is_digit c
    || (leb b'A' c && leb c b'Z')
    || (leb b'a' c && leb c b'z')

-- productToken.MatchString
unfoldable pub is_product_token : Text → Bool
is_product_token s = not (is_empty s) && all is_token_byte s

abbrev pub own_agent : Text
own_agent = codes "featureflip-go/" ++ sdk_version

unfoldable pub user_agent : Text → Text → Text
user_agent wrapper_name wrapper_version =
    if is_empty wrapper_name
    then own_agent
    else if not (is_product_token wrapper_name)
        || (not (is_empty wrapper_version) && not (is_product_token wrapper_version))
    then own_agent
    else if is_empty wrapper_version
    then own_agent ++ b' ' ∷ wrapper_name
    else own_agent ++ b' ' ∷ (wrapper_name ++ b'/' ∷ wrapper_version)

abbrev pub IsToken : Text → Type 0
IsToken s = is_product_token s ≡ true

-- A product of RFC 9110: a token, and a version that is one.
pub data IsProduct (t : Text) : Type 0 where
  plain : IsToken t → IsProduct t
  versioned :
      (name version : Text)
      → IsToken name
      → IsToken version
      → t ≡ name ++ b'/' ∷ version
      → IsProduct t

-- One or two products, apart by a space.
pub data IsAgent (t : Text) : Type 0 where
  alone : IsProduct t → IsAgent t
  wrapped :
      (own wrapper : Text)
      → IsProduct own
      → IsProduct wrapper
      → t ≡ own ++ b' ' ∷ wrapper
      → IsAgent t

own_agent-IsProduct : IsProduct own_agent
unfolding is_product_token is_token_byte
own_agent-IsProduct = versioned (codes "featureflip-go") sdk_version refl refl refl

wrapped-IsAgent :
    (name version : Text)
    → IsToken name
    → (is_empty version ≡ false → IsToken version)
    → IsAgent (
        if is_empty version
        then own_agent ++ b' ' ∷ name
        else own_agent ++ b' ' ∷ (name ++ b'/' ∷ version))
wrapped-IsAgent name [] n v = wrapped own_agent name own_agent-IsProduct (plain n) refl
wrapped-IsAgent name (c ∷ cs) n v =
    wrapped own_agent (name ++ b'/' ∷ c ∷ cs) own_agent-IsProduct
      (versioned name (c ∷ cs) n (v refl) refl) refl

-- Whatever wrapper is configured, the header is the SDK's product, alone or followed by a space and
-- one product: no byte of a wrapper that is not of that form gets into it.
pub user_agent-IsAgent :
    (wrapper_name wrapper_version : Text) → IsAgent (user_agent wrapper_name wrapper_version)
unfolding user_agent
user_agent-IsAgent name version =
    if_rule IsAgent (is_empty name) (alone own_agent-IsProduct)
      (elim (Bool-cases (
        not (is_product_token name)
        || (not (is_empty version) && not (is_product_token version)))) [
          | inl refused ↦ rw refused (alone own_agent-IsProduct)
          | inr taken ↦ rw taken (wrapped-IsAgent name version (ground arith) (λ e. ground arith))
        ])
