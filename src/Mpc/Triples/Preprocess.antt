-- ===== src/Mpc/Triples/Preprocess.antt =====
-- `PreprocessArithTriples` (yacl/mpc/ss_executor.cc) gives the parties shares of product triples.
use yacl_r.Base.{
  ℕ, zero, suc, ◌+◌, ◌*◌, ◌%◌, ◌^◌, ◌<◌, ◌≤◌, ◌≡◌, refl, sym, ap, ◌∙◌, true, List, [], ◌∷◌, ◌++◌,
  some, ok, arith, length, ltb,
}
use yacl_r.Mpc.{add_word, mul_word, ATriple, SsExecutor}
use yacl_r.Mpc.Arithmetic.{IsTriple}
use yacl_r.Mpc.Transfer.Chosen.{Correlated}
use yacl_r.Mpc.Triples.{
  k_bits, Transfers, local_words, make_triples, push_triples, preprocess_arith_triples,
}
use yacl_r.Mpc.Triples.Cross.{Products, none_left, next_product, run_arith_ot_direction-Products}

-- The triples of the parties, one by one, are shares of product triples.
abbrev pub AllTriples : List ATriple → List ATriple → Type 0
AllTriples [] [] = Unit {0}
AllTriples [] (t ∷ us) = ⊥
AllTriples (s ∷ ts) [] = ⊥
AllTriples (s ∷ ts) (t ∷ us) = IsTriple s t × AllTriples ts us

triple_lem :
    (a0 b0 a1 b1 xa0 xa1 xb0 xb1 : ℕ)
    → (xa0 + xa1) % 2 ^ 64 ≡ (a0 * b1) % 2 ^ 64
    → (xb1 + xb0) % 2 ^ 64 ≡ (a1 * b0) % 2 ^ 64
    → ((a0 + a1) * (b0 + b1)) % 2 ^ 64
      ≡ (add_word (add_word (mul_word a0 b0) xa0) xb0
          + add_word (add_word (mul_word a1 b1) xa1) xb1)
        % 2 ^ 64
unfolding add_word mul_word
triple_lem a0 b0 a1 b1 xa0 xa1 xb0 xb1 ha hb =
    let whole : (a0 + a1) * (b0 + b1) ≡ a0 * b0 + a1 * b1 + (a0 * b1 + a1 * b0) = omega arith in
    ap (λ t. t % 2 ^ 64) whole ∙ omega (arith, ha, hb)

make_triples_step :
    (a b x y : ℕ) (a_local b_local xs ys : List ℕ) (ts : List ATriple)
    → make_triples a_local b_local xs ys ≡ some ts
    → make_triples (a ∷ a_local) (b ∷ b_local) (x ∷ xs) (y ∷ ys)
      ≡ some (record { a = a; b = b; c = add_word (add_word (mul_word a b) x) y } ∷ ts)
unfolding make_triples
make_triples_step a b x y a_local b_local xs ys ts h = rw h refl

make_triples_zero : make_triples [] [] [] [] ≡ some []
unfolding make_triples
make_triples_zero = refl

make_triples-AllTriples :
    (a_0 b_0 a_1 b_1 xa_0 xa_1 xb_0 xb_1 : List ℕ)
    → Products a_0 b_1 xa_0 xa_1
    → Products a_1 b_0 xb_1 xb_0
    → length a_0 ≡ length a_1
    → (ts : List ATriple) × (us : List ATriple) × (make_triples a_0 b_0 xa_0 xb_0 ≡ some ts)
      × (make_triples a_1 b_1 xa_1 xb_1 ≡ some us)
      × (length ts ≡ length a_0)
      × AllTriples ts us
make_triples-AllTriples _ _ _ _ _ _ _ _ none_left none_left h =
    ([], [], make_triples_zero, make_triples_zero, refl, tt)
make_triples-AllTriples _ _ _ _ _ _ _ _ none_left (next_product a b x y a_local b_local xs ys hb pb)
      h =
    absurd (omega arith)
make_triples-AllTriples _ _ _ _ _ _ _ _ (next_product a b x y a_local b_local xs ys ha pa) none_left
      h =
    absurd (omega arith)
make_triples-AllTriples _ _ _ _ _ _ _ _ (next_product a0 b1 xa0 xa1 as_0 bs_1 xas_0 xas_1 ha pa)
      (next_product a1 b0 xb1 xb0 as_1 bs_0 xbs_1 xbs_0 hb pb) h =
    let (ts, us, left, right, size, all) =
      make_triples-AllTriples as_0 bs_0 as_1 bs_1 xas_0 xas_1 xbs_0 xbs_1 pa pb (omega arith) in
    (
      _,
      _,
      make_triples_step a0 b0 xa0 xb0 as_0 bs_0 xas_0 xbs_0 ts left,
      make_triples_step a1 b1 xa1 xb1 as_1 bs_1 xas_1 xbs_1 us right,
      ap suc size,
      (triple_lem a0 b0 a1 b1 xa0 xa1 xb0 xb1 ha hb, all),
    )

length-local_words :
    (draw : ℕ → ℕ) (d n : ℕ)
    → (length ((local_words draw d n).0) ≡ n) × (length ((local_words draw d n).1) ≡ n)
unfolding local_words
length-local_words draw d zero = (refl, refl)
length-local_words draw d (suc n) =
    let (left, right) = length-local_words draw (d + 2) n in (ap suc left, ap suc right)

-- `PreprocessArithTriples` of both parties for a positive number of triples, with at least 64 random
-- transfers for each in both directions, in which the receiver has the sender's block that its bit
-- names: it succeeds, whatever the random words are, and puts that many triples behind those that
-- the parties have, which are shares of product triples one by one.
pub preprocess_arith_triples-AllTriples :
    (n : ℕ) (draw_0 draw_1 : ℕ → ℕ) (rot_a rot_b : Transfers) (ex_0 ex_1 : SsExecutor)
    → 0 < n
    → k_bits * n ≤ length rot_a.receiver
    → k_bits * n ≤ length rot_b.receiver
    → Correlated rot_a.sender rot_a.receiver
    → Correlated rot_b.sender rot_b.receiver
    → (ts : List ATriple) × (us : List ATriple) × (preprocess_arith_triples n draw_0 draw_1 rot_a
          rot_b ex_0 ex_1
        ≡ ok (
          record ex_0 { arith_triples = ex_0.arith_triples ++ ts },
          record ex_1 { arith_triples = ex_1.arith_triples ++ us },
        ))
      × (length ts ≡ n)
      × AllTriples ts us
unfolding preprocess_arith_triples push_triples
preprocess_arith_triples-AllTriples n draw_0 draw_1 rot_a rot_b ex_0 ex_1 some_n enough_a enough_b
      related_a related_b =
    let a_0 = (local_words draw_0 0 n).0 in
    let b_0 = (local_words draw_0 0 n).1 in
    let a_1 = (local_words draw_1 0 n).0 in
    let b_1 = (local_words draw_1 0 n).1 in
    let (size_a0, size_b0) = length-local_words draw_0 0 n in
    let (size_a1, size_b1) = length-local_words draw_1 0 n in
    let (xa_0, xa_1, run_a, products_a) =
      run_arith_ot_direction-Products n draw_0 (2 * n) a_0 b_1 rot_a.sender rot_a.receiver some_n
        size_a0 size_b1 enough_a related_a in
    let (xb_1, xb_0, run_b, products_b) =
      run_arith_ot_direction-Products n draw_1 (2 * n) a_1 b_0 rot_b.sender rot_b.receiver some_n
        size_a1 size_b0 enough_b related_b in
    let (ts, us, left, right, size, all) =
      make_triples-AllTriples a_0 b_0 a_1 b_1 xa_0 xa_1 xb_0 xb_1 products_a products_b
        (size_a0 ∙ sym size_a1) in
    let positive : ltb 0 n ≡ true = ground arith in
    (ts, us, rw (positive, run_a, run_b, left, right) refl, size ∙ size_a0, all)
