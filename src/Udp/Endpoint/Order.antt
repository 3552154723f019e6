-- ===== src/Udp/Endpoint/Order.antt =====
-- `operator<` is a strict total order that agrees with `operator==`: what `std::map` asks of its
-- key's order.
use server_core.Common.{◌≡◌, ◌↔◌, Bool, true, false, arith}
use server_core.Udp.Endpoint.{Endpoint, endpoint_lt, endpoint_eq}

endpoint_eq_iff : (a b : Endpoint) → (endpoint_eq a b ≡ true) ↔ (a ≡ b)
unfolding endpoint_eq
endpoint_eq_iff a b = ground arith

endpoint_lt_trans :
    (a b c : Endpoint) → endpoint_lt a b ≡ true → endpoint_lt b c ≡ true → endpoint_lt a c ≡ true
unfolding endpoint_lt
endpoint_lt_trans a b c h k = ground arith

-- What the standard asks of the order and the equality of a map's key.
pub record IsKeyOrder {ℓ} {A : Type ℓ} (lt eq : A → A → Bool) : Type ℓ where
  pub eq_iff : (a b : A) → (eq a b ≡ true) ↔ (a ≡ b)
  pub irreflexive : (a : A) → lt a a ≡ false
  pub transitive : (a b c : A) → lt a b ≡ true → lt b c ≡ true → lt a c ≡ true
  pub asymmetric : (a b : A) → lt a b ≡ true → lt b a ≡ false
  pub total : (a b : A) → lt a b ≡ false → lt b a ≡ false → a ≡ b

-- `operator<` of endpoints is irreflexive, transitive and asymmetric, two endpoints of which
-- neither is less are equal, and `operator==` holds exactly of equal endpoints: what `std::map`
-- asks of its key.
pub endpoint_lt-IsKeyOrder : IsKeyOrder endpoint_lt endpoint_eq
unfolding endpoint_lt
endpoint_lt-IsKeyOrder = record {
  eq_iff = endpoint_eq_iff;
  irreflexive = λ a. ground arith;
  transitive = endpoint_lt_trans;
  asymmetric = λ a b h. ground arith;
  total = λ a b h k. ground arith;
}
