-- ===== src/Gateway/Limits.antt =====
-- The limit on a client's requests.
use native.Mathlib.Nat.{le-div_iff_mul-le}
use greatestworks.Base.{
  ap, arith, if◌then◌else◌, leb, not, refl, ℕ, ◌&&◌, ◌*◌, ◌+◌, ◌/◌, ◌<◌, ◌^◌, ◌||◌, ◌↔◌, ◌∙◌, ◌≡◌,
  ◌≤◌,
}
use greatestworks.Base.Int.{pos, wrap, wrap_int, ◌+ℤ◌, ◌-ℤ◌}
use greatestworks.Gateway.Network.{Network}
use greatestworks.Gateway.Requests.{counted, is_flooding, limit_requests}
use greatestworks.Gateway.State.{Env, Session}

leb_iff : {a b c d : ℕ} → (a ≤ b → c ≤ d) → (c ≤ d → a ≤ b) → leb a b ≡ leb c d
leb_iff {a} {b} {c} {d} f g = ground (arith, f, g)

speed_le : (a d : ℕ) → 0 < d → leb 5120 (a / d) ≡ leb (5120 * d) a
speed_le a d h = let k : (5120 ≤ a / d) ↔ (5120 * d ≤ a) = le-div_iff_mul-le h in leb_iff k.0 k.1

frequency_le : (a d : ℕ) → 0 < d → leb 30 (a / d) ≡ leb (30 * d) a
frequency_le a d h = let k : (30 ≤ a / d) ↔ (30 * d ≤ a) = le-div_iff_mul-le h in leb_iff k.0 k.1

wrap_int_add : (a b : ℕ) → a + b < 2 ^ 63 → wrap_int (pos a +ℤ pos b) ≡ pos (a + b)
unfolding wrap_int wrap ◌+ℤ◌
wrap_int_add a b h = ground (arith, h)

module _ {n : Network} where
  -- What has come in since the last check, with this message: bytes and messages.
  abbrev pub IsCounting : Session n → ℕ → ℕ → Type 0
  IsCounting v bytes count = (v.request_speed ≡ pos bytes) × (v.req_frequency ≡ pos count)

  counted-IsCounting :
      (size bytes count : ℕ) (v : Session n)
      → IsCounting v bytes count
      → bytes + size < 2 ^ 63
      → count + 1 < 2 ^ 63
      → IsCounting (counted size v) (bytes + size) (count + 1)
  counted-IsCounting size bytes count v (b, c) hb hc = (
    ap (λ x. wrap_int (x +ℤ pos size)) b ∙ wrap_int_add bytes size hb,
    ap (λ x. wrap_int (x +ℤ pos 1)) c ∙ wrap_int_add count 1 hc,
  )

  is_flooding_lem :
      (bytes count d : ℕ) (v : Session n)
      → IsCounting v bytes count
      → 0 < d
      → is_flooding (pos d) v ≡ (leb (5120 * d) bytes || leb (30 * d) count)
  is_flooding_lem bytes count d v (b, c) h =
      rw (b, c, speed_le bytes d h, frequency_le count d h) refl

  -- `HandleMessage` lets a message through unless at least 30 seconds have passed since the last
  -- check and the average was at least 5120 bytes or 30 messages per second; then it closes the
  -- connection. At a check the counters start again at 0, and otherwise they go on. The counters
  -- are below 2^63, and the clock has not gone back.
  pub limit_requests_lem :
      (env : Env) (size bytes count d : ℕ) (v : Session n)
      → IsCounting v bytes count
      → bytes + size < 2 ^ 63
      → count + 1 < 2 ^ 63
      → env.unix -ℤ v.last_check_time ≡ pos d
      → let (v', goes_on) = limit_requests env size v in
        let floods = leb (5120 * d) (bytes + size) || leb (30 * d) (count + 1) in
        (goes_on ≡ not (leb 30 d && floods))
        × (v'.tcp ≡ (if leb 30 d && floods then n.close v.tcp else v.tcp))
        × IsCounting v' (if leb 30 d then 0 else bytes + size) (if leb 30 d then 0 else count + 1)
  unfolding limit_requests
  limit_requests_lem env size bytes count d v i hb hc e =
      let v' = counted size v in
      let j = counted-IsCounting size bytes count v i hb hc in
      rw (e, limit_requests) (ground (arith, j, is_flooding_lem (bytes + size) (count + 1) d v' j))
