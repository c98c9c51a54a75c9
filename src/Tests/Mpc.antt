-- ===== src/Tests/Mpc.antt =====
-- Two-party arithmetic (yacl/mpc): the chosen transfers, triples, a product and a conversion.
use yacl_r.Base.{
  ℕ, zero, suc, ◌+◌, ◌≡◌, refl, true, false, List, [], ◌∷◌, ok, arith, length, replicate,
}
use yacl_r.Mpc.{AShare, ATriple, together, share_a, reveal_a, mul_a}
use yacl_r.Mpc.Transfer.{run_chosen_ot}
use yacl_r.Mpc.Transfer.Chosen.{Correlated, run_chosen_ot_lem}
use yacl_r.Mpc.Triples.{Transfers, preprocess_arith_triples}
use yacl_r.Mpc.Triples.Preprocess.{AllTriples, preprocess_arith_triples-AllTriples}
use yacl_r.Mpc.Triples.Multiply.{multiply_with_own_triples}
use yacl_r.Mpc.Arithmetic.{party, secret_of}
use yacl_r.Mpc.Conversion.{b2a}
use yacl_r.Mpc.Conversion.Value.{b2a_lem}

-- The messages 5 and 6, then 7 and 8; the first choice is the random one, the second is not.
run_chosen_ot_lem_example :
    run_chosen_ot 2
      (record { m0 = 5; m1 = 6 } ∷ record { m0 = 7; m1 = 8 } ∷ [])
      ((11, 12) ∷ (13, 14) ∷ [])
      (true ∷ false ∷ [])
      ((true, 12) ∷ (true, 14) ∷ [])
    ≡ ok (6 ∷ 7 ∷ [])
run_chosen_ot_lem_example =
    run_chosen_ot_lem 2 (record { m0 = 5; m1 = 6 } ∷ record { m0 = 7; m1 = 8 } ∷ [])
      ((11, 12) ∷ (13, 14) ∷ []) (true ∷ false ∷ []) ((true, 12) ∷ (true, 14) ∷ []) (omega arith)
      refl refl (omega arith) (refl, (refl, tt))

-- Random transfers of the blocks 1 and 2, of which the receiver has the second.
abbrev transfers : Transfers
transfers = record { sender = replicate 64 (1, 2); receiver = replicate 64 (true, 2) }

replicate-Correlated : (n : ℕ) → Correlated (replicate n (1, 2)) (replicate n (true, 2))
replicate-Correlated zero = tt
replicate-Correlated (suc n) = (refl, replicate-Correlated n)

abbrev words : ℕ → ℕ
words n = 3 + n

preprocess_arith_triples-AllTriples_example :
    (ts : List ATriple) × (us : List ATriple) × (preprocess_arith_triples 1 words words transfers
        transfers
        (party 0 0 [])
        (party 1 0 [])
      ≡ ok (party 0 0 ts, party 1 0 us))
    × (length ts ≡ 1)
    × AllTriples ts us
preprocess_arith_triples-AllTriples_example =
    preprocess_arith_triples-AllTriples 1 words words transfers transfers (party 0 0 [])
      (party 1 0 []) (omega arith) (omega arith) (omega arith) (replicate-Correlated 64)
      (replicate-Correlated 64)

-- The secrets 7 and 8, with the random words 100 and 200 for their shares.
multiply_with_own_triples_example :
    (s : ATriple) × (t : ATriple) × (ts : List ATriple) × (us : List ATriple)
    × (preprocess_arith_triples 1 words words transfers transfers (party 0 0 []) (party 1 0 [])
        ≡ ok (party 0 0 (s ∷ ts), party 1 0 (t ∷ us)))
    × (x0 : AShare) × (x1 : AShare) × (y0 : AShare) × (y1 : AShare) × (z0 : AShare) × (z1 : AShare)
    × (together (share_a (party 0 0 (s ∷ ts)) 100 7) (share_a (party 1 0 (t ∷ us)) 0 0)
        ≡ (ok (x0, party 0 1 (s ∷ ts)), ok (x1, party 1 1 (t ∷ us))))
    × (together (share_a (party 0 1 (s ∷ ts)) 200 8) (share_a (party 1 1 (t ∷ us)) 0 0)
        ≡ (ok (y0, party 0 2 (s ∷ ts)), ok (y1, party 1 2 (t ∷ us))))
    × (together (mul_a (party 0 2 (s ∷ ts)) x0 y0) (mul_a (party 1 2 (t ∷ us)) x1 y1)
        ≡ (ok (z0, party 0 3 ts), ok (z1, party 1 3 us)))
    × (together (reveal_a (party 0 3 ts) z0) (reveal_a (party 1 3 us) z1)
        ≡ (ok (56, party 0 4 ts), ok (56, party 1 4 us)))
multiply_with_own_triples_example =
    multiply_with_own_triples 1 0 100 7 200 8 0 0 0 0 words words transfers transfers (omega arith)
      (omega arith) (omega arith) (replicate-Correlated 64) (replicate-Correlated 64)

-- The Boolean shares of 9.
b2a_lem_example :
    (a_0 : AShare) × (a_1 : AShare) × (b2a words transfers.sender transfers.receiver
        (record { v = 5 })
        (record { v = 12 })
      ≡ ok (a_0, a_1))
    × (secret_of a_0 a_1 ≡ 9)
b2a_lem_example =
    b2a_lem words transfers.sender transfers.receiver (record { v = 5 }) (record { v = 12 })
      (omega arith) (replicate-Correlated 64)
