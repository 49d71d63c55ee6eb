-- ===== src/Gateway/Server/Address.antt =====
-- The id of a gateway: IpAddressStringToUint64 of aop/fn/system.go.
use greatestworks.Base.{
  List, Option-cases, [], ap, arith, inl, inr, refl, returns, some, sym, ℕ, ◌%◌, ◌*◌, ◌+◌, ◌<◌, ◌^◌,
  ◌∙◌, ◌∷◌, ◌≡◌,
}
use greatestworks.Base.Bits.{or_uint64_shifted}
use greatestworks.Base.Text.{Text, parse_uint, split, split_string_to_uint32_slice, uint32s}
use greatestworks.Gateway.Server.{digit_of, ip_address_string_to_uint64}
use greatestworks.Login.Gateway.Fresh.{run}

-- The four parts and the port that the function reads.
abbrev pub IsAddress : Text → List ℕ → Type 0
IsAddress text parts =
    (host : Text) × (port_text : Text) × (more : List Text) × (others : List ℕ) × (ports : List ℕ)
    × (a : ℕ) × (b : ℕ) × (c : ℕ) × (d : ℕ) × (port : ℕ) × (split 0x3a text
        ≡ host ∷ port_text ∷ more)
    × (split_string_to_uint32_slice host 0x2e ≡ a ∷ b ∷ c ∷ d ∷ others)
    × (split_string_to_uint32_slice port_text 0x2e ≡ port ∷ ports)
    × (parts ≡ a ∷ b ∷ c ∷ d ∷ port ∷ [])
    × (a < 256)
    × (b < 256)
    × (c < 256)
    × (d < 256)

parse_uint_bound : (t : Text) (n : ℕ) → parse_uint 32 t ≡ some n → n < 2 ^ 32
unfolding parse_uint
parse_uint_bound t n h = ground (arith, h)

uint32s_bound : (ts : List Text) (n : ℕ) (ns : List ℕ) → uint32s ts ≡ n ∷ ns → n < 2 ^ 32
unfolding uint32s
uint32s_bound [] n ns h = absurd (cc)
uint32s_bound (t ∷ ts) n ns h = elim (Option-cases (parse_uint 32 t)) [
  | inl e ↦ uint32s_bound ts n ns (ground (arith, e, h))
  | inr (m, e) ↦ parse_uint_bound t n (ground (arith, e, h))
]

port_bound :
    (t : Text) (n : ℕ) (ns : List ℕ) → split_string_to_uint32_slice t 0x2e ≡ n ∷ ns → n < 2 ^ 32
unfolding split_string_to_uint32_slice
port_bound t n ns h = uint32s_bound (split 0x2e t) n ns h

digit_of_lem :
    (a b c d port : ℕ)
    → a < 256
    → b < 256
    → c < 256
    → d < 256
    → port < 2 ^ 32
    → digit_of a b c d port ≡ (((a * 256 + b) * 256 + c) * 256 + d) * 2 ^ 32 + port
unfolding digit_of
digit_of_lem a b c d port ha hb hc hd hp =
    let x1 =
      or_uint64_shifted 24 40 a (b * 2 ^ 16) (a * 2 ^ 24 % 2 ^ 32) (b * 2 ^ 16 % 2 ^ 32) refl
        (omega (arith, ha)) (omega (arith, hb)) (omega (arith, ha)) (omega (arith, hb)) in
    let x2 =
      or_uint64_shifted 16 48 (a * 256 + b) (c * 2 ^ 8) _ (c * 2 ^ 8 % 2 ^ 32) refl
        (omega (arith, ha, hb)) (omega (arith, hc)) (x1 ∙ omega arith) (omega (arith, hc)) in
    let x3 =
      or_uint64_shifted 8 56 ((a * 256 + b) * 256 + c) d _ d refl (omega (arith, ha, hb, hc))
        (omega (arith, hd)) (x2 ∙ omega arith) refl in
    let parts : ℕ = ((a * 256 + b) * 256 + c) * 256 + d in
    or_uint64_shifted 32 32 parts port _ port refl (omega (arith, ha, hb, hc, hd)) hp
      (ap (λ t. t * 2 ^ 32 % 2 ^ 64) x3 ∙ omega (arith, ha, hb, hc, hd)) refl

abbrev number_of : ℕ → ℕ → ℕ → ℕ → ℕ → ℕ
number_of a b c d port = (((a * 256 + b) * 256 + c) * 256 + d) * 2 ^ 32 + port

same_parts :
    (a b c d port a' b' c' d' port' : ℕ)
    → a < 256
    → b < 256
    → c < 256
    → d < 256
    → port < 2 ^ 32
    → a' < 256
    → b' < 256
    → c' < 256
    → d' < 256
    → port' < 2 ^ 32
    → number_of a b c d port ≡ number_of a' b' c' d' port'
    → a ∷ b ∷ c ∷ d ∷ port ∷ [] ≡ a' ∷ b' ∷ c' ∷ d' ∷ port' ∷ []
same_parts a b c d port a' b' c' d' port' ha hb hc hd hp ha' hb' hc' hd' hp' e =
    let ports : port ≡ port' = omega (arith, e, hp, hp') in
    let ds : d ≡ d' = omega (arith, e, ports, hd, hd') in
    let cs : c ≡ c' = omega (arith, e, ports, ds, hc, hc') in
    let bs : b ≡ b' = omega (arith, e, ports, ds, cs, hb, hb') in
    let first : a ≡ a' = omega (arith, e, ports, ds, cs, bs) in cc

address_id :
    (text host port_text : Text) (more : List Text) (others ports : List ℕ) (a b c d port : ℕ)
    → split 0x3a text ≡ host ∷ port_text ∷ more
    → split_string_to_uint32_slice host 0x2e ≡ a ∷ b ∷ c ∷ d ∷ others
    → split_string_to_uint32_slice port_text 0x2e ≡ port ∷ ports
    → a < 256
    → b < 256
    → c < 256
    → d < 256
    → (ip_address_string_to_uint64 text ≡ returns (number_of a b c d port)) × (port < 2 ^ 32)
unfolding ip_address_string_to_uint64
address_id text host port_text more others ports a b c d port e f g ha hb hc hd =
    let small = port_bound port_text port ports g in
    (ground (arith, e, f, g) ∙ ap returns (digit_of_lem a b c d port ha hb hc hd small), small)

-- Two addresses of four parts below 256 and a port that have the same id have the same parts and
-- the same port; and the id of such an address is found, without a panic.
pub ip_address_string_to_uint64-parts :
    (s t : Text) (p q : List ℕ)
    → IsAddress s p
    → IsAddress t q
    → (n : ℕ) × (ip_address_string_to_uint64 s ≡ returns n)
      × (ip_address_string_to_uint64 t ≡ returns n → p ≡ q)
ip_address_string_to_uint64-parts s t p q
      (host, port_text, more, others, ports, a, b, c, d, port, e, f, g, same, ha, hb, hc, hd)
      (
        host', port_text', more', others', ports', a', b', c', d', port', e', f', g', same', ha',
        hb', hc', hd',
      ) =
    let (run, hp) = address_id s host port_text more others ports a b c d port e f g ha hb hc hd in
    let (run', hp') =
      address_id t host' port_text' more' others' ports' a' b' c' d' port' e' f' g' ha' hb' hc'
        hd' in
    (
      number_of a b c d port,
      run,
      λ r.
          same
          ∙ same_parts a b c d port a' b' c' d' port' ha hb hc hd hp ha' hb' hc' hd' hp'
              (ground (arith, r, run'))
          ∙ sym same',
    )
