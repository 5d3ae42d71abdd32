-- ===== src/IpBan/Address.antt =====
-- Which addresses may be banned (`bannableIP` of internal/middleware/ipban.go). Parsing and
-- printing of addresses are the parameters `parse_ip` and `ip_string`; a parsed address is four
-- bytes, or one number below 2 ^ 128 where it is no IPv4 address.
use byte_bucket.Prelude.{
  ℕ, ◌+◌, ◌*◌, ◌-◌, ◌/◌, ◌^◌, ◌<◌, ◌≤◌, ◌∙◌, sym, ◌≡◌, String, Bool, false, ◌&&◌, ◌||◌, not, Option,
  none, some, List, [], ◌∷◌, nat_equality, ◌==◌, leb, ltb, arith, if◌then◌else◌,
}

pub data Ip : Type 0 where
  v4 : ℕ → ℕ → ℕ → ℕ → Ip
  v6 : ℕ → Ip

pub is_global_unicast : Ip → Bool
is_global_unicast (v4 a b c d) =
    not (a == 255 && b == 255 && c == 255 && d == 255)
    && not (a == 0 && b == 0 && c == 0 && d == 0)
    && not (a == 127)
    && not (a / 16 == 14)
    && not (a == 169 && b == 254)
is_global_unicast (v6 n) =
    not (n == 0) && not (n == 1) && not (n / 2 ^ 120 == 0xff) && not (n / 2 ^ 118 == 0x3fa)

pub is_private : Ip → Bool
is_private (v4 a b c d) = a == 10 || (a == 172 && b / 16 == 1) || (a == 192 && b == 168)
is_private (v6 n) = n / 2 ^ 121 == 0x7e

-- 100.64.0.0/10
pub cgnat_contains : Ip → Bool
cgnat_contains (v4 a b c d) = a == 100 && b / 64 == 1
cgnat_contains (v6 n) = false

pub is_bannable : Ip → Bool
unfolding is_global_unicast is_private cgnat_contains
is_bannable ip = not (not (is_global_unicast ip) || is_private ip || cgnat_contains ip)

module _ (parse_ip : String → Option Ip) (ip_string : Ip → String) where
  pub bannable_ip : String → Option String
  unfolding is_bannable
  bannable_ip s = elim (parse_ip s) [
    | none ↦ none
    | some ip ↦ if is_bannable ip then some (ip_string ip) else none
  ]

-- The blocks that are never banned, by their first and last address.
abbrev reserved_v4 : List (ℕ × ℕ)
reserved_v4 =
    (0, 0)
    ∷ (10 * 2 ^ 24, 11 * 2 ^ 24 - 1)
    ∷ (100 * 2 ^ 24 + 64 * 2 ^ 16, 100 * 2 ^ 24 + 128 * 2 ^ 16 - 1)
    ∷ (127 * 2 ^ 24, 128 * 2 ^ 24 - 1)
    ∷ (169 * 2 ^ 24 + 254 * 2 ^ 16, 169 * 2 ^ 24 + 255 * 2 ^ 16 - 1)
    ∷ (172 * 2 ^ 24 + 16 * 2 ^ 16, 172 * 2 ^ 24 + 32 * 2 ^ 16 - 1)
    ∷ (192 * 2 ^ 24 + 168 * 2 ^ 16, 192 * 2 ^ 24 + 169 * 2 ^ 16 - 1)
    ∷ (224 * 2 ^ 24, 240 * 2 ^ 24 - 1)
    ∷ (2 ^ 32 - 1, 2 ^ 32 - 1)
    ∷ []

abbrev in_blocks : ℕ → List (ℕ × ℕ) → Bool
in_blocks n [] = false
in_blocks n ((first, last) ∷ blocks) = (leb first n && leb n last) || in_blocks n blocks

abbrev number : ℕ → ℕ → ℕ → ℕ → ℕ
number a b c d = a * 2 ^ 24 + b * 2 ^ 16 + c * 2 ^ 8 + d

abbrev in_block : ℕ → ℕ → ℕ → Bool
in_block first last n = leb first n && leb n last

-- Each block as a test on the bytes.
module _ (a b c d : ℕ) (hb : b < 256) (hc : c < 256) (hd : d < 256) where
  block-byte : (k : ℕ) → in_block (k * 2 ^ 24) ((k + 1) * 2 ^ 24 - 1) (number a b c d) ≡ (a == k)
  block-byte k = ground arith

  block-bytes :
      (k l m : ℕ)
      → l < m
      → m ≤ 256
      → in_block (k * 2 ^ 24 + l * 2 ^ 16) (k * 2 ^ 24 + m * 2 ^ 16 - 1) (number a b c d)
        ≡ (a == k && (leb l b && ltb b m))
  block-bytes k l m h w = ground arith

  block-multicast : in_block (224 * 2 ^ 24) (240 * 2 ^ 24 - 1) (number a b c d) ≡ (a / 16 == 14)
  block-multicast = ground arith

  block-zero : in_block 0 0 (number a b c d) ≡ (a == 0 && b == 0 && c == 0 && d == 0)
  block-zero = ground arith

  block-broadcast :
      a < 256
      → in_block (2 ^ 32 - 1) (2 ^ 32 - 1) (number a b c d)
        ≡ (a == 255 && b == 255 && c == 255 && d == 255)
  block-broadcast ha = ground arith

slice_16 :
    (a b k l : ℕ) → (a == k && b / 16 == l) ≡ (a == k && (leb (l * 16) b && ltb b ((l + 1) * 16)))
slice_16 a b k l = ground arith

slice_64 :
    (a b k l : ℕ) → (a == k && b / 64 == l) ≡ (a == k && (leb (l * 64) b && ltb b ((l + 1) * 64)))
slice_64 a b k l = ground arith

slice_1 : (a b k l : ℕ) → (a == k && b == l) ≡ (a == k && (leb l b && ltb b (l + 1)))
slice_1 a b k l = ground arith

regroup :
    (bcast zero loop multi link p10 p172 p192 cgnat : Bool)
    → not (
        not (not bcast && not zero && not loop && not multi && not link)
        || (p10 || p172 || p192)
        || cgnat)
      ≡ not (
          zero
          || (p10
              || (cgnat || (loop || (link || (p172 || (p192 || (multi || (bcast || false)))))))))
regroup bcast zero loop multi link p10 p172 p192 cgnat = ground arith

same_tests :
    {a b c d e f g h k a' b' c' d' e' f' g' h' k' : Bool}
    → a ≡ a'
    → b ≡ b'
    → c ≡ c'
    → d ≡ d'
    → e ≡ e'
    → f ≡ f'
    → g ≡ g'
    → h ≡ h'
    → k ≡ k'
    → not (a || (b || (c || (d || (e || (f || (g || (h || (k || false)))))))))
      ≡ not (a' || (b' || (c' || (d' || (e' || (f' || (g' || (h' || (k' || false)))))))))
same_tests p q r s t u v w x =
    λ i. not (p i || (q i || (r i || (s i || (t i || (u i || (v i || (w i || (x i || false)))))))))

-- An IPv4 address may be banned exactly if it lies in none of the reserved blocks.
pub is_bannable-v4 :
    (a b c d : ℕ)
    → a < 256
    → b < 256
    → c < 256
    → d < 256
    → is_bannable (v4 a b c d)
      ≡ not (in_blocks (a * 2 ^ 24 + b * 2 ^ 16 + c * 2 ^ 8 + d) reserved_v4)
unfolding is_bannable
is_bannable-v4 a b c d ha hb hc hd =
    regroup (a == 255 && b == 255 && c == 255 && d == 255) (a == 0 && b == 0 && c == 0 && d == 0)
      (a == 127) (a / 16 == 14) (a == 169 && b == 254) (a == 10) (a == 172 && b / 16 == 1)
      (a == 192 && b == 168) (a == 100 && b / 64 == 1)
    ∙ same_tests (sym (block-zero a b c d hb hc hd)) (sym (block-byte a b c d hb hc hd 10))
        (slice_64 a b 100 1
          ∙ sym (block-bytes a b c d hb hc hd 100 64 128 (omega arith) (omega arith)))
        (sym (block-byte a b c d hb hc hd 127))
        (slice_1 a b 169 254
          ∙ sym (block-bytes a b c d hb hc hd 169 254 255 (omega arith) (omega arith)))
        (slice_16 a b 172 1
          ∙ sym (block-bytes a b c d hb hc hd 172 16 32 (omega arith) (omega arith)))
        (slice_1 a b 192 168
          ∙ sym (block-bytes a b c d hb hc hd 192 168 169 (omega arith) (omega arith)))
        (sym (block-multicast a b c d hb hc hd)) (sym (block-broadcast a b c d hb hc hd ha))
