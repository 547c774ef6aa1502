-- ===== src/Ax25/Xid/RoundTrip.antt =====
-- ax25/xid.go: `ParseXID` on what `Encode` writes.
use tncd.Prelude.{
  ==_iff, Bool, Bool-cases, Bytes, [], all_below, all_below_sound, ap, arith, bit_or, drop-append,
  false, if◌then◌else◌, inl, inr, length, length-append, ltb, ok, refl, suc, take, take-append,
  true, ℕ, ◌%◌, ◌*◌, ◌++◌, ◌+◌, ◌-◌, ◌/◌, ◌<◌, ◌==◌, ◌∙◌, ◌∷◌, ◌≡◌, ◌≤◌, ◌⊎◌,
}
use tncd.Ax25.Xid.{
  SrejMode, XidParams, apply_param, body, classes, encode, hdlc, initial_params, parse_group,
  parse_params, parse_xid, srej_bits, srej_multi, srej_none, srej_single,
}

-- The parameters that fit their fields.
pub record FitsFields (p : XidParams) : Type 0 where
  pub modulo : (p.modulo ≡ 8) ⊎ (p.modulo ≡ 128)
  pub i_field : p.i_field_len_rx_bytes < 8192
  pub window : p.window_rx < 256

word_table : all_below 256 (λ a. all_below 256 (λ b. bit_or (a * 256) b == a * 256 + b)) ≡ true
unfolding all_below
word_table = refl

word : (a b : ℕ) → a < 256 → b < 256 → bit_or (a * 256) b ≡ a * 256 + b
word a b h k = (==_iff _ _).0 (all_below_sound 256 _ b (all_below_sound 256 _ a word_table h) k)

split_word : (n : ℕ) → n < 65536 → bit_or (n / 256 % 256 * 256) (n % 256) ≡ n
split_word n h = omega (arith, word (n / 256 % 256) (n % 256) (omega arith) (omega arith))

take_all : (bs : Bytes) → take (length bs) bs ≡ bs
take_all [] = refl
take_all (b ∷ bs) = ap (◌∷◌ b) (take_all bs)

parse_params_step :
    (fuel pi : ℕ) (pv rest : Bytes) (p : XidParams)
    → parse_params (suc fuel) (pi ∷ length pv ∷ (pv ++ rest)) p
      ≡ parse_params fuel rest (apply_param pi pv p)
unfolding parse_params
parse_params_step fuel pi pv rest p =
    let fits : ltb (length (pv ++ rest)) (length pv) ≡ false =
      ground (arith, length-append pv rest) in
    rw (fits, take-append pv rest, drop-append pv rest) refl

-- The two parameters that may be left out.
abbrev options : ℕ → ℕ → Bytes
options i w =
    (if ltb 0 i then 6 ∷ 2 ∷ (i * 8 / 256 % 256) ∷ (i * 8 % 256) ∷ [] else [])
    ++ (if ltb 0 w then 8 ∷ 1 ∷ (w % 256) ∷ [] else [])

parse_window :
    (n w : ℕ) (q : XidParams)
    → w < 256
    → q.window_rx ≡ 0
    → parse_params (suc (suc n)) (if ltb 0 w then 8 ∷ 1 ∷ (w % 256) ∷ [] else []) q
      ≡ ok (record q { window_rx = w })
unfolding parse_params apply_param
parse_window n w q h z = elim (Bool-cases (ltb 0 w)) [
  | inl e ↦ rw e (
      parse_params_step (suc n) 8 ((w % 256) ∷ []) [] q
      ∙ ap (λ (x : ℕ). ok (record q { window_rx = x })) (omega arith))
  | inr e ↦ rw e (ap (λ (x : ℕ). ok (record q { window_rx = x })) (ground arith))
]

parse_options :
    (n i w : ℕ) (q : XidParams)
    → i < 8192
    → w < 256
    → q.i_field_len_rx_bytes ≡ 0
    → q.window_rx ≡ 0
    → parse_params (suc (suc (suc n))) (options i w) q
      ≡ ok (record q { i_field_len_rx_bytes = i; window_rx = w })
unfolding apply_param
parse_options n i w q hi hw zi zw = elim (Bool-cases (ltb 0 i)) [
  | inl e ↦ rw e (
      parse_params_step (suc (suc n)) 6 ((i * 8 / 256 % 256) ∷ (i * 8 % 256) ∷ []) _ q
      ∙ (parse_window n w _ hw zw
          ∙ ap (λ (x : ℕ). ok (record q { i_field_len_rx_bytes = x; window_rx = w }))
              (omega (arith, split_word (i * 8) (omega arith)))))
  | inr e ↦ rw e (
      parse_window (suc n) w q hw zw
      ∙ ap (λ (x : ℕ). ok (record q { i_field_len_rx_bytes = x; window_rx = w })) (ground arith))
]

classes_read :
    (full : Bool) (p : XidParams)
    → apply_param 2 ((classes full / 256 % 256) ∷ (classes full % 256) ∷ []) p
      ≡ record p { full_duplex = full }
unfolding apply_param classes
classes_read true p = refl
classes_read false p = refl

hdlc_read :
    (command : Bool) (mode : SrejMode) (extended : Bool) (p : XidParams)
    → apply_param 3
        ((hdlc command mode extended / 65536 % 256)
          ∷ (hdlc command mode extended / 256 % 256)
          ∷ (hdlc command mode extended % 256)
          ∷ [])
        p
      ≡ record p { modulo = if extended then 128 else p.modulo; srej = mode }
unfolding apply_param hdlc srej_bits
hdlc_read true srej_none true p = refl
hdlc_read true srej_none false p = refl
hdlc_read true srej_single true p = refl
hdlc_read true srej_single false p = refl
hdlc_read true srej_multi true p = refl
hdlc_read true srej_multi false p = refl
hdlc_read false srej_none true p = refl
hdlc_read false srej_none false p = refl
hdlc_read false srej_single true p = refl
hdlc_read false srej_single false p = refl
hdlc_read false srej_multi true p = refl
hdlc_read false srej_multi false p = refl

-- The modulo that the HDLC parameter tells.
modulo_told : (m : ℕ) → (m ≡ 8) ⊎ (m ≡ 128) → (if m == 128 then 128 else 8) ≡ m
modulo_told m (inl e) = rw e refl
modulo_told m (inr e) = rw e refl

parse_body :
    (n : ℕ) (p : XidParams) (command : Bool)
    → FitsFields p
    → parse_params (suc (suc (suc (suc (suc n))))) (body p command) initial_params ≡ ok p
unfolding body
parse_body n p command v =
    let c = classes p.full_duplex in
    let h = hdlc command p.srej (p.modulo == 128) in
    let cs = (c / 256 % 256) ∷ (c % 256) ∷ [] in
    let hs = (h / 65536 % 256) ∷ (h / 256 % 256) ∷ (h % 256) ∷ [] in
    let rest = options p.i_field_len_rx_bytes p.window_rx in
    let first = record initial_params { full_duplex = p.full_duplex } in
    let both = record first { modulo = if p.modulo == 128 then 128 else 8; srej = p.srej } in
    parse_params_step _ 2 cs (3 ∷ 3 ∷ (hs ++ rest)) initial_params
    ∙ (ap (λ (q : XidParams). parse_params (suc (suc (suc (suc n)))) (3 ∷ 3 ∷ (hs ++ rest)) q)
          (classes_read p.full_duplex initial_params)
        ∙ (parse_params_step _ 3 hs rest first
            ∙ (ap (λ (q : XidParams). parse_params (suc (suc (suc n))) rest q)
                  (hdlc_read command p.srej (p.modulo == 128) first)
                ∙ (parse_options n p.i_field_len_rx_bytes p.window_rx both v.i_field v.window refl
                      refl
                    ∙ ap (λ (m : ℕ). ok (record p { modulo = m }))
                        (modulo_told p.modulo v.modulo)))))

length-body_long : (p : XidParams) (command : Bool) → 9 ≤ length (body p command)
unfolding body
length-body_long p command = omega arith

length-body_short : (p : XidParams) (command : Bool) → length (body p command) ≤ 16
unfolding body
length-body_short p command = ground arith

parse_group-body :
    (p : XidParams) (command : Bool)
    → FitsFields p
    → parse_group (length (body p command)) (body p command) ≡ ok p
unfolding parse_group
parse_group-body p command v =
    let b = body p command in
    let whole : ltb (length b) (length b) ≡ false = ground arith in
    let long : length b ≡ suc (suc (suc (suc (suc (length b - 5))))) =
      omega (arith, length-body_long p command) in
    let all : parse_params (length b) (take (length b) b) initial_params ≡ ok p =
      ap (λ (x : Bytes). parse_params (length b) x initial_params) (take_all b)
      ∙ (ap (λ (k : ℕ). parse_params k b initial_params) long
          ∙ parse_body (length b - 5) p command v) in
    rw whole all

-- `ParseXID` gives back every parameter that `Encode` wrote, in the command form and in the response
-- form, if the modulo is 8 or 128, the length of the I field is below 8192 bytes and the window is
-- below 256 (zero stands for a parameter that is left out).
pub parse_xid-encode :
    (p : XidParams) (command : Bool) → FitsFields p → parse_xid (encode p command) ≡ ok p
unfolding parse_xid encode
parse_xid-encode p command v =
    let n = length (body p command) in
    ap (λ (k : ℕ). parse_group k (body p command))
      (split_word n (omega (arith, length-body_short p command)))
    ∙ parse_group-body p command v
