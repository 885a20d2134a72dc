-- ===== src/Markets/Accounts/Header.antt =====
-- The header of a market account, and what `assertAccount` asks of the data.
use kassandra.Base.{
  ℕ, ◌%◌, ◌≡◌, ◌↔◌, refl, arith, List, ◌∷◌, ◌++◌, length, get_elem?, concat, replicate, ok, some,
}
use kassandra.Bytes.{u8}
use kassandra.Markets.Accounts.Common.{AccountType, tag_of, assert_account}

-- The tag, and seven bytes of padding.
abbrev pub header : AccountType → List ℕ
header t = u8 (tag_of t) ++ replicate 7 0

tag_byte : (t : AccountType) → tag_of t % 256 ≡ tag_of t
tag_byte AccountType.uninitialized = refl
tag_byte _ = refl

pub assert_account-header :
    (t : AccountType) {raw : List ℕ} (cs : List (List ℕ)) (size : ℕ)
    → raw ≡ concat (header t ∷ cs)
    → length (concat (header t ∷ cs)) ≡ size
    → assert_account raw t size ≡ ok tt
unfolding assert_account u8
assert_account-header t cs size laid h = rw laid (ground (arith, tag_byte t))

pub assert_account_iff :
    (raw : List ℕ) (t : AccountType) (size : ℕ)
    → (assert_account raw t size ≡ ok tt)
      ↔ ((length raw ≡ size) × (get_elem? raw 0 ≡ some (tag_of t)))
unfolding assert_account
assert_account_iff raw t size = ground arith
