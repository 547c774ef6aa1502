-- ===== src/Agwpe/RoundTrip.antt =====
-- agwpe/agwpe.go: `ParseHeader` on what `Build` writes.
use tncd.Prelude.{
  All, Bytes, [], ap, arith, drop, false, length, length-append, ltb, ok, refl, suc, take,
  take-append, zero, ℕ, ◌++◌, ◌+◌, ◌<◌, ◌∙◌, ◌∷◌, ◌≡◌, ◌≢◌, ◌≤◌,
}
use tncd.Agwpe.{build, c_string, nul_padded, parse_header, put_uint, uint_le}

length-nul_padded : (n : ℕ) (s : Bytes) → length (nul_padded n s) ≡ n
unfolding nul_padded
length-nul_padded zero s = refl
length-nul_padded (suc n) [] = omega (arith, length-nul_padded n [])
length-nul_padded (suc n) (c ∷ s) = omega (arith, length-nul_padded n s)

c_string-nul_padded :
    (n : ℕ) (s : Bytes) → length s ≤ n → All (λ (c : ℕ). c ≢ 0) s → c_string (nul_padded n s) ≡ s
unfolding c_string nul_padded
c_string-nul_padded zero [] h v = refl
c_string-nul_padded zero (c ∷ s) h v = absurd (omega arith)
c_string-nul_padded (suc n) [] h v = refl
c_string-nul_padded (suc n) (c ∷ s) h (k, v) =
    ground (arith, c_string-nul_padded n s (omega arith) v, k)

take_first : (p q : Bytes) (n : ℕ) → length p ≡ n → take n (p ++ q) ≡ p
take_first p q n h = rw (← h) (take-append p q)

drop_past : (p q : Bytes) (m k : ℕ) → m ≡ length p + k → drop m (p ++ q) ≡ drop k q
drop_past [] q m k h = ap (λ (j : ℕ). drop j q) (omega (arith, h))
drop_past (c ∷ p) q zero k h = absurd (omega arith)
drop_past (c ∷ p) q (suc m) k h = drop_past p q m k (omega arith)

uint_le-put_uint : (n : ℕ) → n < 4294967296 → uint_le (put_uint n) ≡ n
uint_le-put_uint n h = omega arith

-- `ParseHeader` of what `Build` writes gives back the port, the kind, the PID, both calls and the
-- length of the payload, if the calls have at most ten bytes, none of them NUL, and the payload is
-- shorter than 2^32 bytes.
pub parse_header-build :
    (port kind pid : ℕ) (from to payload : Bytes)
    → length from ≤ 10
    → All (λ (c : ℕ). c ≢ 0) from
    → length to ≤ 10
    → All (λ (c : ℕ). c ≢ 0) to
    → length payload < 4294967296
    → parse_header (build port kind pid from to payload)
      ≡ ok (record {
        port = port;
        kind = kind;
        pid = pid;
        call_from = from;
        call_to = to;
        data_len = length payload;
      })
unfolding parse_header build
parse_header-build port kind pid from to payload hf vf ht vt hp =
    let p = nul_padded 10 from in
    let q = nul_padded 10 to in
    let r = put_uint (length payload) ++ (0 ∷ 0 ∷ 0 ∷ 0 ∷ []) ++ payload in
    let lp = length-nul_padded 10 from in
    let lq = length-nul_padded 10 to in
    let whole : ltb (length (build port kind pid from to payload)) 36 ≡ false =
      ground (arith, length-append p (q ++ r), length-append q r, lp, lq) in
    let ef : c_string (take 10 (p ++ (q ++ r))) ≡ from =
      ap c_string (take_first p (q ++ r) 10 lp) ∙ c_string-nul_padded 10 from hf vf in
    let et : c_string (take 10 (drop 10 (p ++ (q ++ r)))) ≡ to =
      ap (λ (x : Bytes). c_string (take 10 x)) (drop_past p (q ++ r) 10 0 (omega (arith, lp)))
      ∙ (ap c_string (take_first q r 10 lq) ∙ c_string-nul_padded 10 to ht vt) in
    let en : uint_le (take 4 (drop 20 (p ++ (q ++ r)))) ≡ length payload =
      ap (λ (x : Bytes). uint_le (take 4 x))
        (drop_past p (q ++ r) 20 10 (omega (arith, lp)) ∙ drop_past q r 10 0 (omega (arith, lq)))
      ∙ uint_le-put_uint (length payload) hp in
    rw whole (λ i. ok (record {
      port = port;
      kind = kind;
      pid = pid;
      call_from = ef i;
      call_to = et i;
      data_len = en i;
    }))
