-- ===== src/Mpc/Arithmetic.antt =====
-- What two parties get from the arithmetic operations of `SSExecutor` (yacl/mpc/ss_executor.cc).
use yacl_r.Base.{
  ℕ, ◌+◌, ◌*◌, ◌%◌, ◌^◌, ◌≡◌, refl, sym, ap, ap₂, ◌∙◌, true, List, [], ◌∷◌, ok, some, arith, ◌==◌,
  length,
}
use yacl_r.Base.Residue.{mul-mod}
use yacl_r.Mpc.{
  add_word, sub_word, mul_word, AShare, ATriple, SsExecutor, mla, sha, rva, Prefix, find_message,
  together, recv_u64_vec, recv_u64, next_tag, consume_a_triple, share_a, reveal_a, add_a, sub_a,
  neg_a, mul_const_a, product_share, mul_a, same_prefix,
}

-- A party after `n` tags, with the triples that are left.
abbrev pub party : ℕ → ℕ → List ATriple → SsExecutor
party rank n triples = record { rank = rank; arith_triples = triples; tag_ctr = n }

abbrev pub share : ℕ → AShare
share v = record { v = v }

-- The value that two shares hold together.
abbrev pub secret_of : AShare → AShare → ℕ
secret_of x y = (x.v + y.v) % 2 ^ 64

-- The shares of a product triple: the product of the first two values is the third.
abbrev pub IsTriple : ATriple → ATriple → Type 0
IsTriple s t = ((s.a + t.a) * (s.b + t.b)) % 2 ^ 64 ≡ (s.c + t.c) % 2 ^ 64

pub product_mod : (m a b c d : ℕ) → a % m ≡ c % m → b % m ≡ d % m → (a * b) % m ≡ (c * d) % m
product_mod m a b c d ha hb = mul-mod m a b ∙ ap₂ (λ s t. (s * t) % m) ha hb ∙ sym (mul-mod m c d)

same_counter : (n : ℕ) → (n == n) ≡ true
same_counter n = ground arith

-- What is found under its tag, the only one.
find_only :
    (p : Prefix) (n : ℕ) (words : List ℕ)
    → same_prefix p p ≡ true
    → find_message (record { prefix = p; counter = n; payload = words } ∷ []) p n ≡ some words
unfolding find_message
find_only p n words h = rw (h, same_counter n) refl

recv_only :
    (p : Prefix) (n : ℕ) (words : List ℕ)
    → same_prefix p p ≡ true
    → recv_u64_vec (record { prefix = p; counter = n; payload = words } ∷ []) p n (length words)
      ≡ ok words
unfolding recv_u64_vec
recv_only p n words h =
    rw (find_only p n words h, recv_u64_vec) (rw (same_counter (length words)) refl)

recv_word :
    (p : Prefix) (n w : ℕ)
    → same_prefix p p ≡ true
    → recv_u64 (record { prefix = p; counter = n; payload = w ∷ [] } ∷ []) p n ≡ ok w
unfolding recv_u64
recv_word p n w h = rw (recv_only p n (w ∷ []) h, recv_u64) refl

-- `ShareA`: the shares of rank 0's secret.
pub share_a-together :
    (n drawn secret other unused : ℕ) (ts us : List ATriple)
    → together (share_a (party 0 n ts) drawn secret) (share_a (party 1 n us) other unused) ≡ (
      ok (share (sub_word secret drawn), party 0 (n + 1) ts),
      ok (share drawn, party 1 (n + 1) us),
    )
unfolding share_a next_tag same_prefix
share_a-together n drawn secret other unused ts us = rw (recv_word sha n drawn refl) refl

-- `RevealA`: both parties get the value that the shares hold.
pub reveal_a-together :
    (n : ℕ) (x y : AShare) (ts us : List ATriple)
    → together (reveal_a (party 0 n ts) x) (reveal_a (party 1 n us) y)
      ≡ (ok (secret_of x y, party 0 (n + 1) ts), ok (secret_of x y, party 1 (n + 1) us))
unfolding reveal_a next_tag add_word same_prefix
reveal_a-together n x y ts us =
    rw (recv_word rva n x.v refl, recv_word rva n y.v refl)
      (ap (λ w. (ok (secret_of x y, party 0 (n + 1) ts), ok (w, party 1 (n + 1) us)))
        (ap (λ t. t % 2 ^ 64) (swap y.v x.v)))
  where
    swap : (a b : ℕ) → a + b ≡ b + a
    swap a b = omega arith

opened_lem :
    (a0 a1 x0 x1 : ℕ)
    → (add_word (sub_word x0 a0) (sub_word x1 a1) + (a0 + a1)) % 2 ^ 64 ≡ (x0 + x1) % 2 ^ 64
unfolding add_word sub_word
opened_lem a0 a1 x0 x1 = omega arith

shares_lem :
    (s t : ATriple) (e f : ℕ)
    → IsTriple s t
    → (product_share 0 s e f + product_share 1 t e f) % 2 ^ 64
      ≡ ((e + (s.a + t.a)) * (f + (s.b + t.b))) % 2 ^ 64
unfolding product_share add_word mul_word
shares_lem s t e f h =
    let linear : (product_share 0 s e f + product_share 1 t e f) % 2 ^ 64
        ≡ (s.c + t.c + (e * s.b + f * s.a + e * f + (e * t.b + f * t.a))) % 2 ^ 64 =
      omega arith in
    let whole : (e + (s.a + t.a)) * (f + (s.b + t.b))
        ≡ (s.a + t.a) * (s.b + t.b) + (e * s.b + f * s.a + e * f + (e * t.b + f * t.a)) =
      omega arith in
    linear ∙ omega (arith, h) ∙ ap (λ w. w % 2 ^ 64) (sym whole)

-- `MulA`: shares of the product, from a product triple.
product_lem :
    (s t : ATriple) (x0 x1 y0 y1 e f : ℕ)
    → IsTriple s t
    → e ≡ add_word (sub_word x0 s.a) (sub_word x1 t.a)
    → f ≡ add_word (sub_word y0 s.b) (sub_word y1 t.b)
    → (product_share 0 s e f + product_share 1 t e f) % 2 ^ 64 ≡ ((x0 + x1) * (y0 + y1)) % 2 ^ 64
product_lem s t x0 x1 y0 y1 e f h he hf =
    shares_lem s t e f h
    ∙ product_mod (2 ^ 64) (e + (s.a + t.a)) (f + (s.b + t.b)) (x0 + x1) (y0 + y1)
        (ap (λ w. (w + (s.a + t.a)) % 2 ^ 64) he ∙ opened_lem s.a t.a x0 x1)
        (ap (λ w. (w + (s.b + t.b)) % 2 ^ 64) hf ∙ opened_lem s.b t.b y0 y1)

add_word_comm : (a b : ℕ) → add_word a b ≡ add_word b a
unfolding add_word
add_word_comm a b = ap (λ w. w % 2 ^ 64) (omega arith)

-- `MulA` of two parties in step with each other, whose next triples are the shares of a product
-- triple: it uses these up, and gives shares of the product.
pub mul_a-together :
    (n : ℕ) (s t : ATriple) (ts us : List ATriple) (x0 x1 y0 y1 : AShare)
    → IsTriple s t
    → (z0 : AShare) × (z1 : AShare) × (together
          (mul_a (party 0 n (s ∷ ts)) x0 y0)
          (mul_a (party 1 n (t ∷ us)) x1 y1)
        ≡ (ok (z0, party 0 (n + 1) ts), ok (z1, party 1 (n + 1) us)))
      × (secret_of z0 z1 ≡ (secret_of x0 x1 * secret_of y0 y1) % 2 ^ 64)
unfolding mul_a consume_a_triple next_tag same_prefix
mul_a-together n s t ts us x0 x1 y0 y1 h =
    let e0 = sub_word x0.v s.a in
    let e1 = sub_word x1.v t.a in
    let f0 = sub_word y0.v s.b in
    let f1 = sub_word y1.v t.b in
    (
      share (product_share 0 s (add_word e0 e1) (add_word f0 f1)),
      share (product_share 1 t (add_word e1 e0) (add_word f1 f0)),
      rw (recv_only mla n (e0 ∷ f0 ∷ []) refl, recv_only mla n (e1 ∷ f1 ∷ []) refl) refl,
      ap (λ w. (product_share 0 s (add_word e0 e1) (add_word f0 f1) + w) % 2 ^ 64)
            (ap₂ (λ a b. product_share 1 t a b) (add_word_comm e1 e0) (add_word_comm f1 f0))
          ∙ product_lem s t x0.v x1.v y0.v y1.v (add_word e0 e1) (add_word f0 f1) h refl refl
          ∙ mul-mod (2 ^ 64) (x0.v + x1.v) (y0.v + y1.v),
    )

shared : (secret drawn : ℕ) → (sub_word secret drawn + drawn) % 2 ^ 64 % 2 ^ 64 ≡ secret % 2 ^ 64
unfolding sub_word
shared secret drawn = omega arith

-- Two secrets of rank 0 are shared, the shares multiplied with a product triple, and the product
-- revealed: both parties get the product of the secrets modulo 2 ^ 64.
pub reveal_a-mul_a-share_a :
    (n dx sx dy sy ox ux oy uy : ℕ) (s t : ATriple) (ts us : List ATriple)
    → IsTriple s t
    → (x0 : AShare) × (x1 : AShare) × (y0 : AShare) × (y1 : AShare) × (z0 : AShare) × (z1 : AShare)
      × (together (share_a (party 0 n (s ∷ ts)) dx sx) (share_a (party 1 n (t ∷ us)) ox ux)
          ≡ (ok (x0, party 0 (n + 1) (s ∷ ts)), ok (x1, party 1 (n + 1) (t ∷ us))))
      × (together
            (share_a (party 0 (n + 1) (s ∷ ts)) dy sy)
            (share_a (party 1 (n + 1) (t ∷ us)) oy uy)
          ≡ (ok (y0, party 0 (n + 1 + 1) (s ∷ ts)), ok (y1, party 1 (n + 1 + 1) (t ∷ us))))
      × (together
            (mul_a (party 0 (n + 1 + 1) (s ∷ ts)) x0 y0)
            (mul_a (party 1 (n + 1 + 1) (t ∷ us)) x1 y1)
          ≡ (ok (z0, party 0 (n + 1 + 1 + 1) ts), ok (z1, party 1 (n + 1 + 1 + 1) us)))
      × (together
            (reveal_a (party 0 (n + 1 + 1 + 1) ts) z0)
            (reveal_a (party 1 (n + 1 + 1 + 1) us) z1)
          ≡ (
            ok (sx * sy % 2 ^ 64, party 0 (n + 1 + 1 + 1 + 1) ts),
            ok (sx * sy % 2 ^ 64, party 1 (n + 1 + 1 + 1 + 1) us),
          ))
reveal_a-mul_a-share_a n dx sx dy sy ox ux oy uy s t ts us h =
    let x0 = share (sub_word sx dx) in
    let y0 = share (sub_word sy dy) in
    let (z0, z1, multiplied, product) =
      mul_a-together (n + 1 + 1) s t ts us x0 (share dx) y0 (share dy) h in
    let value : secret_of z0 z1 ≡ sx * sy % 2 ^ 64 =
      product
      ∙ product_mod (2 ^ 64) (secret_of x0 (share dx)) (secret_of y0 (share dy)) sx sy
          (shared sx dx) (shared sy dy) in
    (
      x0,
      share dx,
      y0,
      share dy,
      z0,
      z1,
      share_a-together n dx sx ox ux (s ∷ ts) (t ∷ us),
      share_a-together (n + 1) dy sy oy uy (s ∷ ts) (t ∷ us),
      multiplied,
      reveal_a-together (n + 1 + 1 + 1) z0 z1 ts us
          ∙ ap
              (λ w.
                (ok (w, party 0 (n + 1 + 1 + 1 + 1) ts), ok (w, party 1 (n + 1 + 1 + 1 + 1) us)))
              value,
    )

-- `AddA`, `SubA`, `NegA` and `MulConstA` of both parties give shares of the sum, the difference, the
-- negation and the multiple.
pub linear_operations :
    (x0 x1 y0 y1 : AShare) (c : ℕ)
    → (secret_of (add_a x0 y0) (add_a x1 y1) ≡ add_word (secret_of x0 x1) (secret_of y0 y1))
      × (secret_of (sub_a x0 y0) (sub_a x1 y1) ≡ sub_word (secret_of x0 x1) (secret_of y0 y1))
      × (secret_of (neg_a x0) (neg_a x1) ≡ sub_word 0 (secret_of x0 x1))
      × (secret_of (mul_const_a x0 c) (mul_const_a x1 c) ≡ mul_word (secret_of x0 x1) c)
unfolding add_a sub_a neg_a mul_const_a add_word sub_word mul_word
linear_operations x0 x1 y0 y1 c = (
  omega arith,
  omega arith,
  omega arith,
  multiple x0.v x1.v ∙ product_mod (2 ^ 64) (x0.v + x1.v) c (secret_of x0 x1) c (omega arith) refl,
)
  where
    multiple : (a b : ℕ) → (a * c % 2 ^ 64 + b * c % 2 ^ 64) % 2 ^ 64 ≡ ((a + b) * c) % 2 ^ 64
    multiple a b = omega arith
