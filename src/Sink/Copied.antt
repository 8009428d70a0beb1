-- ===== src/Sink/Copied.antt =====
-- `appendInternal` copies all bytes, and gives back their space.
use constexpr_fmt_str.Prelude.{
  ℕ, zero, suc, ◌+◌, ◌-◌, ◌≤◌, ◌<◌, ◌≡◌, refl, sym, ap, ◌∙◌, some, List, [], ◌∷◌, ◌++◌, arith,
  length, take, drop, min, length-append, length-take, length-drop, append_assoc, lt→ltb,
  append-nil, length-replicate, replicate, ◌>>=◌, bind-some, some-same,
}
use constexpr_fmt_str.Staging.{Staging, consume}
use constexpr_fmt_str.Entry.{bytes_of}
use constexpr_fmt_str.Sink.{
  SinkLogger, append_buffer, append_chunks, append_internal, check_point, check_point_size,
  release_threshold,
}

take-drop : (n : ℕ) (xs : List ℕ) → take n xs ++ drop n xs ≡ xs
take-drop zero [] = refl
take-drop zero (x ∷ xs) = refl
take-drop (suc n) [] = refl
take-drop (suc n) (x ∷ xs) = ap (λ ys. x ∷ ys) (take-drop n xs)

append_buffer-room :
    (size : ℕ) (buffer bytes : List ℕ)
    → length buffer + length bytes < size
    → append_buffer size buffer bytes ≡ some (buffer ++ bytes)
unfolding append_buffer
append_buffer-room size buffer bytes h =
    rw (lt→ltb (length bytes) (size - length buffer) (omega arith)) refl

consume-consume : (m n : ℕ) (sb : Staging) → consume n (consume m sb) ≡ consume (m + n) sb
unfolding consume
consume-consume m n sb = ap (λ p. record sb { consumer_pos = p }) (omega arith)

consume-nothing : (sb : Staging) → consume 0 sb ≡ sb
unfolding consume
consume-nothing sb = ap (λ p. record sb { consumer_pos = p }) (omega arith)

append_chunks-all :
    (size fuel : ℕ) (buffer logline : List ℕ) (sb : Staging)
    → length logline ≤ fuel
    → length buffer + length logline < size
    → append_chunks size fuel buffer logline sb
      ≡ some (buffer ++ logline, consume (length logline) sb)
unfolding append_chunks
append_chunks-all size fuel buffer [] sb h room = rw (append-nil buffer, consume-nothing sb) refl
append_chunks-all size zero buffer (c ∷ logline) sb h room = absurd (omega arith)
append_chunks-all size (suc fuel) buffer (c ∷ logline) sb h room =
    let k = min release_threshold (length (c ∷ logline)) in
    let chunk = take k (c ∷ logline) in
    let behind = drop k (c ∷ logline) in
    let lt = length-take k (c ∷ logline) in
    let ld = length-drop k (c ∷ logline) in
    let la = length-append buffer chunk in
    let copied : append_buffer size buffer chunk ≡ some (buffer ++ chunk) =
      append_buffer-room size buffer chunk (omega arith) in
    let rest : append_chunks size fuel (buffer ++ chunk) behind (consume k sb)
        ≡ some ((buffer ++ chunk) ++ behind, consume (length behind) (consume k sb)) =
      append_chunks-all size fuel (buffer ++ chunk) behind (consume k sb) (omega arith)
        (omega arith) in
    let bytes : (buffer ++ chunk) ++ behind ≡ buffer ++ (c ∷ logline) =
      append_assoc buffer chunk behind ∙ ap (λ zs. buffer ++ zs) (take-drop k (c ∷ logline)) in
    let total : k + length behind ≡ length (c ∷ logline) = omega arith in
    ap (λ m. m >>= λ buffer'. append_chunks size fuel buffer' behind (consume k sb)) copied
    ∙ rest
    ∙ ap (λ z. some (z, consume (length behind) (consume k sb))) bytes
    ∙ ap (λ z. some (buffer ++ (c ∷ logline), z))
        (consume-consume k (length behind) sb ∙ ap (λ n. consume n sb) total)

append_buffer-result :
    (size : ℕ) (buffer bytes b : List ℕ)
    → append_buffer size buffer bytes ≡ some b
    → b ≡ buffer ++ bytes
unfolding append_buffer
append_buffer-result size buffer bytes b e = ground (arith, e)

-- what the loop leaves, where it does not fail
append_chunks-result :
    (size fuel : ℕ) (buffer logline b : List ℕ) (sb sb' : Staging)
    → append_chunks size fuel buffer logline sb ≡ some (b, sb')
    → b ≡ buffer ++ logline
unfolding append_chunks
append_chunks-result size fuel buffer [] b sb sb' e =
    sym (ap (λ z. z.0) (some-same (buffer, sb) (b, sb') e)) ∙ sym (append-nil buffer)
append_chunks-result size zero buffer (c ∷ logline) b sb sb' e = ground (arith, e)
append_chunks-result size (suc fuel) buffer (c ∷ logline) b sb sb' e =
    let k = min release_threshold (length (c ∷ logline)) in
    let (b1, copied, rest) =
      bind-some (append_buffer size buffer (take k (c ∷ logline))) _ (b, sb') e in
    append_chunks-result size fuel b1 (drop k (c ∷ logline)) b (consume k sb) sb' rest
    ∙ ap (λ z. z ++ drop k (c ∷ logline))
        (append_buffer-result size buffer (take k (c ∷ logline)) b1 copied)
    ∙ append_assoc buffer (take k (c ∷ logline)) (drop k (c ∷ logline))
    ∙ ap (λ zs. buffer ++ zs) (take-drop k (c ∷ logline))

-- the bytes of a call
abbrev pub record_of : List ℕ → List ℕ → List ℕ
record_of name logline = check_point name (length logline) ++ logline

pub append_internal-result :
    (size : ℕ) (name logline : List ℕ) (sink sink' : SinkLogger) (sb sb' : Staging)
    → append_internal size name logline sink sb ≡ some (sink', sb')
    → sink' ≡ record sink { current_buffer = sink.current_buffer ++ record_of name logline }
unfolding append_internal
append_internal-result size name logline sink sink' sb sb' e =
    let from = sink.current_buffer ++ check_point name (length logline) in
    let ((b, sb1), run, same) =
      bind-some (append_chunks size (length logline) from logline sb) _ (sink', sb') e in
    sym (ap (λ z. z.0) (some-same (record sink { current_buffer = b }, sb1) (sink', sb') same))
    ∙ ap (λ z. record sink { current_buffer = z })
        (append_chunks-result size (length logline) from logline b sb sb1 run
          ∙ append_assoc sink.current_buffer (check_point name (length logline)) logline)

pub length-check_point :
    (name : List ℕ) (n : ℕ) → length name ≤ 20 → length (check_point name n) ≡ check_point_size
unfolding check_point
length-check_point name n h =
    let l1 : length (check_point name n) ≡ length (name ++ replicate (20 - length name) 0) + 4 =
      length-append (name ++ replicate (20 - length name) 0) (bytes_of 4 n) in
    let l2 = length-append name (replicate (20 - length name) 0) in
    omega (arith, l1, l2, length-replicate {A = ℕ} (20 - length name) 0)

pub append_internal-room :
    (size : ℕ) (name logline : List ℕ) (sink : SinkLogger) (sb : Staging)
    → length name ≤ 20
    → length sink.current_buffer + (length logline + check_point_size) < size
    → append_internal size name logline sink sb
      ≡ some (
        record sink { current_buffer = sink.current_buffer ++ record_of name logline },
        consume (length logline) sb,
      )
unfolding append_internal
append_internal-room size name logline sink sb small room =
    let from = sink.current_buffer ++ check_point name (length logline) in
    let lf = length-append sink.current_buffer (check_point name (length logline)) in
    let lc = length-check_point name (length logline) small in
    rw
      (
        append_chunks-all size (length logline) from logline sb (omega arith) (omega arith),
        append_assoc sink.current_buffer (check_point name (length logline)) logline,
      )
      refl
