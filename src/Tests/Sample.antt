-- ===== src/Tests/Sample.antt =====
-- A platform whose addresses are 32 bytes and whose texts are their own encoding, for the examples.
use kassandra.Base.{
  ℕ, ◌+◌, ◌%◌, ◌≡◌, refl, ap, arith, List, [], ◌∷◌, Bool, true, false, ◌&&◌, ◌==◌, Result, ok, err,
  invalid_address, length, replicate, concat, drop, not, if◌then◌else◌,
}
use native.Mathlib.Nat.{ℕ_set}
use native.Mathlib.Decide.{ℕ_discrete}
use kassandra.Platform.{Platform}
use kassandra.Instructions.Payload.{ProgramIds}

abbrev pub Key : Type 0
Key = (bs : List ℕ) × (length bs ≡ 32)

abbrev pub key_of : List ℕ → Result Key
key_of bs = elim (ℕ_discrete (length bs) 32) [ yes h ↦ ok (bs, h) | no h ↦ err invalid_address ]

pub key_of_lem : (bs : List ℕ) (h : length bs ≡ 32) → key_of bs ≡ ok (bs, h)
key_of_lem bs h = go (ℕ_discrete (length bs) 32)
  where
    go :
        (d : Dec (length bs ≡ 32))
        → (elim d as (λ _. Result Key) [ yes h ↦ ok (bs, h) | no h ↦ err invalid_address ])
          ≡ ok (bs, h)
    go (yes h') = ap (λ k. ok (bs, k)) (ℕ_set _ _ h' h)
    go (no n) = absurd (n h)

-- The same bytes.
abbrev pub same : List ℕ → List ℕ → Bool
same [] [] = true
same (x ∷ xs) (y ∷ ys) = (x == y) && same xs ys
same xs ys = false

pub same_sound : (xs ys : List ℕ) → same xs ys ≡ true → xs ≡ ys
same_sound [] [] h = refl
same_sound (x ∷ xs) (y ∷ ys) h = ground (arith, same_sound xs ys)
same_sound [] (y ∷ ys) h = cc
same_sound (x ∷ xs) [] h = cc

pub same_refl : (xs : List ℕ) → same xs xs ≡ true
same_refl [] = refl
same_refl (x ∷ xs) = ground (arith, same_refl xs)

-- The first byte of what is hashed, in an address of that byte alone.
abbrev pub byte_key : ℕ → Key
byte_key b = (replicate 32 b, refl)

abbrev pub sum : List ℕ → ℕ
sum [] = 0
sum (x ∷ xs) = x + sum xs

-- The byte order mark in UTF-8, which a `TextDecoder` drops where it stands in front.
abbrev pub has_bom : List ℕ → Bool
has_bom (a ∷ b ∷ c ∷ bs) = a == 239 && b == 187 && c == 191
has_bom _ = false

abbrev pub drop_bom : List ℕ → List ℕ
drop_bom bs = if has_bom bs then drop 3 bs else bs

pub drop_bom_lem : (t : List ℕ) → not (has_bom t) ≡ true → drop_bom t ≡ t
drop_bom_lem t h = ground (arith, h)

abbrev pub sample : Platform
sample = record {
  Address = Key;
  Text = List ℕ;
  address_of_bytes = key_of;
  address_of_text = key_of;
  to_bytes = λ a. a.0;
  to_base58 = λ a. a.0;
  same_text = same;
  find_program_address = λ seeds program. ok (byte_key (sum (concat seeds) % 256), 255);
  text_encode = λ t. t;
  text_decode = drop_bom;
  is_plain = λ t. not (has_bom t);
  length-to_bytes = λ a. a.1;
  of_bytes-to_bytes = λ a. key_of_lem a.0 a.1;
  same_text_iff = λ s t. (same_sound s t, λ e. rw e (same_refl t));
  of_bytes_total = λ bs h. ((bs, h), key_of_lem bs h);
  decode-encode = drop_bom_lem;
}

abbrev pub sample_ids : ProgramIds sample
sample_ids = record {
  kassandra_program_id = byte_key 1;
  system_program_id = byte_key 2;
  token_program_id = byte_key 3;
  ata_program_id = byte_key 4;
  conditional_vault_id = byte_key 5;
}
