-- ===== src/Base/Reply.antt =====
-- The answers of the Redis client.
use mathlib.Core.Path.{◌≡◌, refl}
use mathlib.Core.Logic.{◌⊎◌, inl, inr}

-- What a Redis command answers: a value, the error `redis.Nil`, or another error.
pub data Reply {ℓ} (A : Type ℓ) : Type ℓ where
  value : A → Reply A
  nil_reply failed : Reply A

pub Reply-cases :
    {A : Type 0} (o : Reply A) → ((a : A) × (o ≡ value a)) ⊎ (o ≡ nil_reply) ⊎ (o ≡ failed)
Reply-cases (value a) = inl (a, refl)
Reply-cases nil_reply = inr (inl refl)
Reply-cases failed = inr (inr refl)
