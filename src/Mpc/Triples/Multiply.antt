-- ===== src/Mpc/Triples/Multiply.antt =====
-- Two parties of `SSExecutor` (yacl/mpc/ss_executor.cc) multiply with the triples that they have made.
use yacl_r.Base.{
  ℕ, ◌+◌, ◌*◌, ◌%◌, ◌^◌, ◌<◌, ◌≤◌, ◌≡◌, refl, ap₂, ◌∙◌, List, [], ◌∷◌, ok, arith, length,
}
use yacl_r.Mpc.{AShare, ATriple, together, share_a, reveal_a, mul_a}
use yacl_r.Mpc.Arithmetic.{IsTriple, party, reveal_a-mul_a-share_a}
use yacl_r.Mpc.Transfer.Chosen.{Correlated}
use yacl_r.Mpc.Triples.{k_bits, Transfers, preprocess_arith_triples}
use yacl_r.Mpc.Triples.Preprocess.{AllTriples, preprocess_arith_triples-AllTriples}

first-IsTriple :
    (ts us : List ATriple)
    → AllTriples ts us
    → 0 < length ts
    → (s : ATriple) × (t : ATriple) × (ts_after : List ATriple) × (us_after : List ATriple) × (ts
        ≡ s ∷ ts_after)
      × (us ≡ t ∷ us_after)
      × IsTriple s t
first-IsTriple [] us all some_left = absurd (omega arith)
first-IsTriple (s ∷ ts) [] all some_left = absurd all
first-IsTriple (s ∷ ts) (t ∷ us) (here, all) some_left = (s, t, ts, us, refl, refl, here)

-- Two parties at the same tag and without triples make a positive number of them, with at least 64
-- random transfers for each in both directions, in which the receiver has the sender's block that its
-- bit names. Then two secrets of rank 0 are shared, the shares multiplied and the product revealed:
-- each of these succeeds, whatever the random words are, and both parties get the product of the
-- secrets modulo 2 ^ 64.
pub multiply_with_own_triples :
    (n m dx sx dy sy ox ux oy uy : ℕ) (draw_0 draw_1 : ℕ → ℕ) (rot_a rot_b : Transfers)
    → 0 < n
    → k_bits * n ≤ length rot_a.receiver
    → k_bits * n ≤ length rot_b.receiver
    → Correlated rot_a.sender rot_a.receiver
    → Correlated rot_b.sender rot_b.receiver
    → (s : ATriple) × (t : ATriple) × (ts : List ATriple) × (us : List ATriple)
      × (preprocess_arith_triples n draw_0 draw_1 rot_a rot_b (party 0 m []) (party 1 m [])
          ≡ ok (party 0 m (s ∷ ts), party 1 m (t ∷ us)))
      × (x0 : AShare) × (x1 : AShare) × (y0 : AShare) × (y1 : AShare) × (z0 : AShare)
      × (z1 : AShare) × (together
            (share_a (party 0 m (s ∷ ts)) dx sx)
            (share_a (party 1 m (t ∷ us)) ox ux)
          ≡ (ok (x0, party 0 (m + 1) (s ∷ ts)), ok (x1, party 1 (m + 1) (t ∷ us))))
      × (together
            (share_a (party 0 (m + 1) (s ∷ ts)) dy sy)
            (share_a (party 1 (m + 1) (t ∷ us)) oy uy)
          ≡ (ok (y0, party 0 (m + 1 + 1) (s ∷ ts)), ok (y1, party 1 (m + 1 + 1) (t ∷ us))))
      × (together
            (mul_a (party 0 (m + 1 + 1) (s ∷ ts)) x0 y0)
            (mul_a (party 1 (m + 1 + 1) (t ∷ us)) x1 y1)
          ≡ (ok (z0, party 0 (m + 1 + 1 + 1) ts), ok (z1, party 1 (m + 1 + 1 + 1) us)))
      × (together
            (reveal_a (party 0 (m + 1 + 1 + 1) ts) z0)
            (reveal_a (party 1 (m + 1 + 1 + 1) us) z1)
          ≡ (
            ok (sx * sy % 2 ^ 64, party 0 (m + 1 + 1 + 1 + 1) ts),
            ok (sx * sy % 2 ^ 64, party 1 (m + 1 + 1 + 1 + 1) us),
          ))
multiply_with_own_triples n m dx sx dy sy ox ux oy uy draw_0 draw_1 rot_a rot_b some_n enough_a
      enough_b related_a related_b =
    let (all_0, all_1, run, size, all) =
      preprocess_arith_triples-AllTriples n draw_0 draw_1 rot_a rot_b (party 0 m []) (party 1 m [])
        some_n enough_a enough_b related_a related_b in
    let (s, t, ts, us, left, right, triple) = first-IsTriple all_0 all_1 all (omega arith) in
    let (x0, x1, y0, y1, z0, z1, shared_x, shared_y, multiplied, revealed) =
      reveal_a-mul_a-share_a m dx sx dy sy ox ux oy uy s t ts us triple in
    (
      s,
      t,
      ts,
      us,
      run ∙ ap₂ (λ v w. ok (party 0 m v, party 1 m w)) left right,
      x0,
      x1,
      y0,
      y1,
      z0,
      z1,
      shared_x,
      shared_y,
      multiplied,
      revealed,
    )
