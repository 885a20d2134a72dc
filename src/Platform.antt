-- ===== src/Platform.antt =====
-- What the program takes from its platform, `@solana/web3.js` and the text codec: a parameter.
use kassandra.Base.{ℕ, ◌↔◌, Bool, true, List, ◌≡◌, Result, ok, length}

pub record Platform : Type 1 where
  -- `Address` of web3.js, and the strings that hold text outside the program's own literals.
  pub Address : Type 0
  pub Text : Type 0
  -- `new Address(bytes)`, `new Address(base58)`, `toBytes()`.
  pub address_of_bytes : List ℕ → Result Address
  pub address_of_text : Text → Result Address
  pub to_bytes : Address → List ℕ
  -- `toString()`, and `===` on such strings.
  pub to_base58 : Address → Text
  pub same_text : Text → Text → Bool
  -- `Address.findProgramAddress(seeds, programId)`: the address and its bump.
  pub find_program_address : List (List ℕ) → Address → Result (Address × ℕ)
  -- `TextEncoder.encode`, `TextDecoder.decode`.
  pub text_encode : Text → List ℕ
  pub text_decode : List ℕ → Text
  -- The text has no lone surrogate, and no byte order mark in front.
  pub is_plain : Text → Bool
  -- An address has 32 bytes, and the constructor takes back what `toBytes` gives.
  pub length-to_bytes : (a : Address) → length (to_bytes a) ≡ 32
  pub of_bytes-to_bytes : (a : Address) → address_of_bytes (to_bytes a) ≡ ok a
  pub same_text_iff : (s t : Text) → (same_text s t ≡ true) ↔ (s ≡ t)
  -- The constructor takes any 32 bytes.
  pub of_bytes_total : (bs : List ℕ) → length bs ≡ 32 → (a : Address) × (address_of_bytes bs ≡ ok a)
  -- Decoding takes back what encoding gives of a text with no lone surrogate, for which the encoder
  -- writes a replacement, and no byte order mark in front, which the decoder drops.
  pub decode-encode : (t : Text) → is_plain t ≡ true → text_decode (text_encode t) ≡ t
