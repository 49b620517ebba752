-- ===== src/Journal/Header.antt =====
-- The header block of the log of kernel/fs/vimixfs/log.c: what `write_head` stores `read_head` loads.
use vimix_os.Base.{
  ℕ, zero, suc, ◌≤◌, ◌<◌, ◌≡◌, refl, ap, ◌∙◌, List, [], ◌∷◌, ◌++◌, arith, length, take, replicate,
}
use vimix_os.Journal.{block_words, encode_head, decode_head}

take-append : {A : Type 0} (xs ys : List A) → take (length xs) (xs ++ ys) ≡ xs
take-append [] ys = refl
take-append (x ∷ xs) ys = ap (λ l. x ∷ l) (take-append xs ys)

take-take : {A : Type 0} (n m : ℕ) (xs : List A) → n ≤ m → take n (take m xs) ≡ take n xs
take-take zero m xs h = refl
take-take (suc n) zero xs h = absurd (omega arith)
take-take (suc n) (suc m) [] h = refl
take-take (suc n) (suc m) (x ∷ xs) h = ap (λ l. x ∷ l) (take-take n m xs (omega arith))

-- A header of at most 255 blocks is read back as it was written.
pub decode_head-encode_head :
    (blocks : List ℕ) → length blocks < block_words → decode_head (encode_head blocks) ≡ blocks
unfolding encode_head decode_head
decode_head-encode_head blocks h =
    take-take (length blocks) 255 (blocks ++ replicate block_words 0) (omega arith)
    ∙ take-append blocks (replicate block_words 0)
