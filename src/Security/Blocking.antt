-- ===== src/Security/Blocking.antt =====
-- `handleBlock` of web/src/pages/Security.tsx, and the characters that its pattern accepts.
use ddsds.Common.{
  ℕ, String, Bool, true, false, ◌||◌, ◌∷◌, ◌≡◌, refl, All, arith, Bool-cases, inl, inr,
}
use ddsds.Text.{truthy, codes, trim, or_else}
use ddsds.Text.Regex.{Alphabet, matches-Alphabet, in_range}
use ddsds.Security.{SecurityView, block, ip_re, octet, is_ip, is_dot, is_hex_or_colon, handle_block}

-- The characters of an address: digits, a dot, hexadecimal digits, a colon.
unfoldable pub is_address_char : ℕ → Bool
unfolding is_dot is_hex_or_colon
is_address_char c = is_dot c || is_hex_or_colon c

dot-address : (c : ℕ) → is_address_char c ≡ false → is_dot c ≡ false
unfolding is_address_char
dot-address c h = ground arith

hex-address : (c : ℕ) → is_address_char c ≡ false → is_hex_or_colon c ≡ false
unfolding is_address_char
hex-address c h = ground arith

digit-address : (c : ℕ) → is_address_char c ≡ false → in_range b'0' b'9' c ≡ false
unfolding is_address_char
digit-address c h = ground arith

octet-Alphabet : Alphabet is_address_char octet
unfolding octet
octet-Alphabet = (digit-address, (tt, (digit-address, (tt, digit-address))))

ip_re-Alphabet : Alphabet is_address_char ip_re
unfolding ip_re
ip_re-Alphabet = (
  (
    octet-Alphabet,
    (dot-address, (octet-Alphabet, (dot-address, (octet-Alphabet, (dot-address, octet-Alphabet))))),
  ),
  (hex-address, hex-address),
)

is_ip-chars : (s : String) → is_ip s ≡ true → All (λ c. is_address_char c ≡ true) (codes s)
unfolding is_ip
is_ip-chars s h = matches-Alphabet is_address_char (codes s) ip_re ip_re-Alphabet h

-- What the form sends and becomes: nothing, if the trimmed address does not fit the pattern; or
-- one request, with an address that fits, made of the characters of addresses only, and the trimmed
-- reason or the given one in its place, and an empty form.
pub data Outcome (manual_block : String) (v v' : SecurityView) : Type 0 where
  refused : is_ip (trim v.block_ip) ≡ false → v' ≡ v → Outcome manual_block v v'
  sent :
      is_ip (trim v.block_ip) ≡ true
      → All (λ c. is_address_char c ≡ true) (codes (trim v.block_ip))
      → v' ≡ record v {
        requests =
            block (trim v.block_ip) (or_else (trim v.block_reason) manual_block) ∷ v.requests;
        block_ip = "";
        block_reason = "";
      }
      → Outcome manual_block v v'

is_ip-truthy : (s : String) → is_ip s ≡ true → truthy s ≡ true
unfolding is_ip
is_ip-truthy String.[] h = h
is_ip-truthy (String.◌∷◌ c s) h = refl

-- `handleBlock` sends a request exactly if the trimmed address fits the pattern, and then with an
-- address made of digits, hexadecimal digits, dots and colons only, and an emptied form.
pub handle_block-Outcome :
    (manual_block : String) (v : SecurityView)
    → Outcome manual_block v (handle_block manual_block v)
unfolding handle_block
handle_block-Outcome manual_block v = elim (Bool-cases (is_ip (trim v.block_ip))) [
  | inl e ↦ sent e (is_ip-chars (trim v.block_ip) e) (rw (e, is_ip-truthy (trim v.block_ip) e) refl)
  | inr e ↦ refused e (ground arith)
]
