-- ===== src/Bytes/RoundTrip.antt =====
-- bytes.ts: the encodings have their widths and are injective; concatenation is in order.
use kassandra.Base.{
  ℕ, zero, suc, ◌+◌, ◌*◌, ◌/◌, ◌^◌, ◌<◌, ◌≡◌, refl, sym, ap, ◌∙◌, arith, List, [], ◌∷◌, ◌++◌,
  length, drop, concat, length-append, length-replicate, append_assoc, take-append,
  drop-append_more, length-drop,
}
use kassandra.Bytes.{le, total_length, copy_from, set_at, concat_bytes}

-- The number that little-endian bytes stand for.
unfoldable pub of_le : List ℕ → ℕ
of_le [] = 0
of_le (b ∷ bs) = b + 256 * of_le bs

pub length-le : (n v : ℕ) → length (le n v) ≡ n
unfolding le
length-le zero v = refl
length-le (suc n) v = ap suc (length-le n (v / 256))

pub of_le-le : (n v : ℕ) → v < 256 ^ n → of_le (le n v) ≡ v
unfolding le of_le
of_le-le zero v h = omega arith
of_le-le (suc n) v h = omega (arith, of_le-le n (v / 256) (omega arith))

total_length-concat :
    (parts : List (List ℕ)) (n : ℕ) → total_length n parts ≡ n + length (concat parts)
unfolding total_length
total_length-concat [] n = omega arith
total_length-concat (p ∷ parts) n =
    omega (arith, total_length-concat parts (n + length p), length-append p (concat parts))

-- The chunks before `off` are in place, and behind them is room for the others.
copy_from-concat :
    (parts : List (List ℕ)) (done room : List ℕ) (off : ℕ)
    → length done ≡ off
    → length room ≡ length (concat parts)
    → copy_from parts off (done ++ room) ≡ done ++ concat parts
unfolding copy_from
copy_from-concat [] done [] off h k = refl
copy_from-concat [] done (r ∷ room) off h k = absurd (omega arith)
copy_from-concat (p ∷ parts) done room off h k =
    let fits : length room ≡ length p + length (concat parts) = k ∙ length-append p _ in
    let moved : set_at (done ++ room) p off ≡ (done ++ p) ++ drop (length p) room =
      rw
        (
          take-append done room h,
          drop-append_more done room (length p) {n = off + length p} (omega arith),
        )
        (sym (append_assoc done p _)) in
    ap (copy_from parts (off + length p)) moved
    ∙ copy_from-concat parts (done ++ p) (drop (length p) room) (off + length p)
        (omega (arith, length-append done p)) (omega (arith, length-drop (length p) room))
    ∙ append_assoc done p _

-- The copying loop gives the chunks one after the other, and nothing else.
pub concat_bytes-concat : (parts : List (List ℕ)) → concat_bytes parts ≡ concat parts
unfolding concat_bytes
concat_bytes-concat parts =
    copy_from-concat parts [] _ 0 refl
      (length-replicate _ 0 ∙ total_length-concat parts 0 ∙ omega arith)
